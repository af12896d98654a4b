-- ===== src/Fingerprint.antt =====
-- `payment_fingerprint` (src/hosted_facilitator/hosted/fingerprint.py). `str.lower`, the `decimal`
-- module and the digest of the canonical record (`json.dumps`, then `hashlib.sha256`) are
-- parameters.
pub mod Spelling
use Prim.Native.Char.{code}
use x402_hosted_facilitator.Common.{
  ℕ, String, ◌≡◌, refl, Bool, false, Option, none, some, ◌==◌, nat_eq, ◌&&◌, if◌then◌else◌, ok, err,
  Result, value_error,
}
use x402_hosted_facilitator.Json
use x402_hosted_facilitator.Json.{Value, Fields}
use x402_hosted_facilitator.Engine.{FacilitatorEnvelope}
use x402_hosted_facilitator.Validation.{str_of}
use x402_hosted_facilitator.Validation.Numerals.{Decimals}

-- the dictionary that is digested
pub record CanonicalPayment : Type 0 where
  pub x402_version : ℕ
  pub provider : String
  pub scheme : Value
  pub network : Value
  pub asset : Value
  pub amount : Option String
  pub pay_to : Value
  pub payer : Value
  pub authorization_to : Value
  pub authorization_value : Option String
  pub authorization_nonce : Value
  pub valid_after : Option String
  pub valid_before : Option String

abbrev inner_authorization : Option Value → Option Fields
inner_authorization (some (Value.dict payload)) = elim (Json.get "authorization" payload) [
  | some (Value.dict authorization) ↦ some authorization
  | _ ↦ none
]
inner_authorization _ = none

abbrev outer_authorization : Option Value → Fields
outer_authorization (some (Value.dict authorization)) = authorization
outer_authorization _ = Fields.end

-- `_authorization`
unfoldable pub authorization_of_payload : Fields → Fields
authorization_of_payload payload = elim (inner_authorization (Json.get "payload" payload)) [
  | some authorization ↦ authorization
  | none ↦ outer_authorization (Json.get "authorization" payload)
]

-- `accepted if isinstance(accepted, dict) else payment_requirements`
abbrev pub payable_of : Option Value → Fields → Fields
payable_of (some (Value.dict accepted)) requirements = accepted
payable_of _ requirements = requirements

-- `text.startswith("0x")`
abbrev pub starts_with_0x : String → Bool
starts_with_0x (String.◌∷◌ c (String.◌∷◌ e s)) = code c == b'0' && code e == b'x'
starts_with_0x _ = false

-- what `get` returns: a missing field and a JSON null are both None
abbrev value_of : Option Value → Value
value_of none = Value.null
value_of (some value) = value

module _ (lower : String → String) (d : Decimals) where
  -- `_lower_hex`, and `_lower`
  unfoldable pub lower_hex : Option Value → Value
  lower_hex (some (Value.str text)) =
      if starts_with_0x (lower text) then Value.str (lower text) else Value.str text
  lower_hex value = value_of value

  abbrev pub number_text : Option d.Decimal → Result (Option String)
  number_text none = err (value_error "Invalid numeric fingerprint field")
  number_text (some number) =
      if d.is_integral number
      then elim (d.int_text number) [ ok text ↦ ok (some text) | err e ↦ err e ]
      else ok (some (d.normal_text number))

  -- `_numeric_string`; a JSON null is None
  unfoldable pub numeric_string : Option Value → Result (Option String)
  numeric_string none = ok none
  numeric_string (some Value.null) = ok none
  numeric_string (some value) = number_text (d.parse (str_of lower d value))

  abbrev with_text : {A : Type 0} → Result (Option String) → (Option String → Result A) → Result A
  with_text (err e) next = err e
  with_text (ok text) next = next text

  -- the dictionary, or the first of the four numbers that cannot be read
  abbrev canonical_from :
      Fields
      → String
      → ℕ
      → Value
      → Value
      → Value
      → Result (Option String)
      → Result (Option String)
      → Result (Option String)
      → Result CanonicalPayment
  canonical_from payable provider version payer to nonce value valid_after valid_before =
      with_text (numeric_string (Json.get "amount" payable)) λ amount.
        with_text value λ authorization_value. with_text valid_after λ after.
          with_text valid_before λ before. ok (record {
            x402_version = version;
            provider = provider;
            scheme = value_of (Json.get "scheme" payable);
            network = value_of (Json.get "network" payable);
            asset = lower_hex (Json.get "asset" payable);
            amount = amount;
            pay_to = lower_hex (Json.get "payTo" payable);
            payer = payer;
            authorization_to = to;
            authorization_value = authorization_value;
            authorization_nonce = nonce;
            valid_after = after;
            valid_before = before;
          })

  abbrev canonical_of : Fields → Fields → String → ℕ → Result CanonicalPayment
  canonical_of payable authorization provider version =
      canonical_from payable provider version (lower_hex (Json.get "from" authorization))
        (lower_hex (Json.get "to" authorization)) (lower_hex (Json.get "nonce" authorization))
        (numeric_string (Json.get "value" authorization))
        (numeric_string (Json.get "validAfter" authorization))
        (numeric_string (Json.get "validBefore" authorization))

  unfoldable pub canonical_payment : FacilitatorEnvelope → String → Result CanonicalPayment
  unfolding numeric_string
  canonical_payment envelope provider =
      canonical_of
        (payable_of (Json.get "accepted" envelope.payment_payload) envelope.payment_requirements)
        (authorization_of_payload envelope.payment_payload) provider envelope.x402_version

  abbrev digested : (CanonicalPayment → String) → Result CanonicalPayment → Result String
  digested digest (err e) = err e
  digested digest (ok payment) = ok (digest payment)

  -- `payment_fingerprint`, as `_settlement_fingerprint` calls it
  unfoldable pub payment_fingerprint :
      (CanonicalPayment → String) → FacilitatorEnvelope → String → Result String
  payment_fingerprint digest envelope provider =
      digested digest (canonical_payment envelope provider)
