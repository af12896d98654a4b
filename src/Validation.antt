-- ===== src/Validation.antt =====
-- `validate_settlement_envelope` (src/hosted_facilitator/hosted/validation.py). The `decimal` module,
-- `str` of a list or dict and `==` of decoded values are parameters; `str` of a number is its text.
pub mod Numerals
pub mod Agreement
use x402_hosted_facilitator.Common.{
  ℕ, String, Bool, true, false, not, ◌&&◌, ◌||◌, Option, none, some, List, [], ◌∷◌, ◌==◌, string_eq,
  if◌then◌else◌, ok, err, Error, Result, value_error,
}
use x402_hosted_facilitator.Json
use x402_hosted_facilitator.Json.{Value, Fields}
use x402_hosted_facilitator.Engine.{FacilitatorEnvelope}
use Numerals.{Decimals}

abbrev pub checked_fields : List String
checked_fields = "scheme" ∷ "network" ∷ "asset" ∷ "amount" ∷ "payTo" ∷ []

abbrev pub protocol_error : Error
protocol_error = value_error "ProtocolValidationError"

abbrev pub is_address_field : String → Bool
is_address_field name = name == "asset" || name == "payTo"

-- the first error, in the order of the checks
abbrev pub first_error : Option Error → Option Error → Option Error
first_error (some e) next = some e
first_error none next = next

module _ (lower : String → String) (d : Decimals) where
  -- `str(value)`
  abbrev pub str_of : Value → String
  str_of Value.null = "None"
  str_of (Value.bool b) = if b then "True" else "False"
  str_of (Value.number text) = text
  str_of (Value.str text) = text
  str_of (Value.list items) = d.repr (Value.list items)
  str_of (Value.dict fields) = d.repr (Value.dict fields)

  abbrev amount_text : Option d.Decimal → Result String
  amount_text none = err protocol_error
  amount_text (some amount) =
      if d.is_integral amount then d.int_text amount else ok (d.normal_text amount)

  -- `_canonical_amount`
  abbrev pub canonical_amount : Value → Result String
  canonical_amount value = amount_text (d.parse (str_of value))

  abbrev pub canonical_address : Value → String
  canonical_address (Value.str text) = lower text
  canonical_address value = str_of value

  -- `_canonical_value`
  unfoldable pub canonical_value : String → Value → Result String
  canonical_value name value =
      if is_address_field name
      then ok (canonical_address value)
      else if name == "amount"
      then canonical_amount value
      else ok (str_of value)

  abbrev pub compare_texts : Result String → Result String → Option Error
  compare_texts (err e) b = some e
  compare_texts (ok a) (err e) = some e
  compare_texts (ok a) (ok b) = if a == b then none else some protocol_error

  abbrev pub compare_values : String → Option Value → Option Value → Option Error
  compare_values name none requirement = some protocol_error
  compare_values name (some v) none = some protocol_error
  compare_values name (some v) (some w) =
      compare_texts (canonical_value name v) (canonical_value name w)

  -- the loop over the fields
  unfoldable pub check_fields : List String → Fields → Fields → Option Error
  unfolding canonical_value
  check_fields [] accepted requirements = none
  check_fields (name ∷ names) accepted requirements =
      first_error (compare_values name (Json.get name accepted) (Json.get name requirements))
        (check_fields names accepted requirements)

  abbrev pub same_timeouts : Option Value → Option Value → Bool
  same_timeouts (some v) (some w) = str_of v == str_of w
  same_timeouts _ _ = true

  abbrev pub demand : Bool → Option Error
  demand true = none
  demand false = some protocol_error

  abbrev pub check_accepted : FacilitatorEnvelope → Fields → Option Error
  check_accepted envelope accepted =
      let requirements = envelope.payment_requirements in
      first_error (check_fields checked_fields accepted requirements) (
        first_error
          (demand (
            same_timeouts (Json.get "maxTimeoutSeconds" accepted)
              (Json.get "maxTimeoutSeconds" requirements)))
          (first_error
            (demand (
              d.equals_int (Json.get "x402Version" envelope.payment_payload) envelope.x402_version))
            (demand (d.equals (Json.get "extra" accepted) (Json.get "extra" requirements)))))

  abbrev pub check_envelope : FacilitatorEnvelope → Option Value → Result Fields
  check_envelope envelope (some (Value.dict accepted)) = elim (check_accepted envelope accepted) [
    | none ↦ ok accepted
    | some e ↦ err e
  ]
  check_envelope envelope _ = err protocol_error

  unfoldable pub validate_settlement_envelope : FacilitatorEnvelope → Result Fields
  unfolding check_fields
  validate_settlement_envelope envelope =
      check_envelope envelope (Json.get "accepted" envelope.payment_payload)
