-- ===== src/Fingerprint/Spelling.antt =====
-- What `payment_fingerprint` (src/hosted_facilitator/hosted/fingerprint.py) does not depend on: the
-- case of hexadecimal texts, the spelling of numbers, and what the payload holds besides.
use Prim.Native.Char.{Char, code}
use x402_hosted_facilitator.Common.{
  String, ◌≡◌, ◌⊎◌, refl, sym, ap, ◌∙◌, inl, inr, true, Option, some, Bool-cases,
}
use x402_hosted_facilitator.Json
use x402_hosted_facilitator.Json.{Value, Fields}
use x402_hosted_facilitator.Engine.{FacilitatorEnvelope}
use x402_hosted_facilitator.Validation.{str_of}
use x402_hosted_facilitator.Validation.Numerals.{Decimals, DecimalLaws}
use x402_hosted_facilitator.Fingerprint.{
  CanonicalPayment, authorization_of_payload, lower_hex, number_text, numeric_string,
  canonical_payment, payment_fingerprint,
}

module _ (lower : String → String) (d : Decimals) (laws : DecimalLaws d) where
  -- A text that starts with `0x` in lower case.
  abbrev pub IsHex : String → Type 0
  IsHex text =
      (zero : Char) × (x : Char) × (digits : String) × (code zero ≡ b'0')
      × (code x ≡ b'x')
      × (lower text ≡ String.◌∷◌ zero (String.◌∷◌ x digits))

  -- The same value, or hexadecimal texts that differ in case only.
  abbrev pub SameHex : Option Value → Option Value → Type 0
  SameHex v w =
      (v ≡ w)
      ⊎ ((a : String) × (b : String) × (v ≡ some (Value.str a))
          × (w ≡ some (Value.str b))
          × IsHex a
          × (lower a ≡ lower b))

  -- The value, which is not null, reads as the number.
  abbrev pub IsNumber : Value → d.Decimal → Type 0
  IsNumber Value.null number = ⊥
  IsNumber v number = d.parse (str_of lower d v) ≡ some number

  -- The same value, or values that read as equal numbers.
  abbrev pub SameNumber : Option Value → Option Value → Type 0
  SameNumber v w =
      (v ≡ w)
      ⊎ ((a : Value) × (b : Value) × (v ≡ some a)
          × (w ≡ some b)
          × (m : d.Decimal) × (n : d.Decimal) × IsNumber a m
          × IsNumber b n
          × (laws.same m n ≡ true))

  -- Two authorizations that say the same.
  abbrev pub SameAuthorization : Fields → Fields → Type 0
  SameAuthorization a b =
      SameHex (Json.get "from" a) (Json.get "from" b)
      × SameHex (Json.get "to" a) (Json.get "to" b)
      × SameHex (Json.get "nonce" a) (Json.get "nonce" b)
      × SameNumber (Json.get "value" a) (Json.get "value" b)
      × SameNumber (Json.get "validAfter" a) (Json.get "validAfter" b)
      × SameNumber (Json.get "validBefore" a) (Json.get "validBefore" b)

  lower_hex-IsHex :
      (text : String)
      → IsHex text
      → lower_hex lower d (some (Value.str text)) ≡ Value.str (lower text)
  unfolding lower_hex
  lower_hex-IsHex text (zero, x, digits, at_zero, at_x, e) = rw (e, at_zero, at_x) refl

  lower_hex-SameHex : (v w : Option Value) → SameHex v w → lower_hex lower d v ≡ lower_hex lower d w
  lower_hex-SameHex v w (inl e) = ap (lower_hex lower d) e
  lower_hex-SameHex v w (inr (a, b, p, q, (zero, x, digits, at_zero, at_x, e), same)) =
      ap (lower_hex lower d) p
      ∙ lower_hex-IsHex a (zero, x, digits, at_zero, at_x, e)
      ∙ ap Value.str same
      ∙ sym (lower_hex-IsHex b (zero, x, digits, at_zero, at_x, sym same ∙ e))
      ∙ sym (ap (lower_hex lower d) q)

  number_text-same :
      (m n : d.Decimal)
      → laws.same m n ≡ true
      → number_text lower d (some m) ≡ number_text lower d (some n)
  number_text-same m n same = elim (Bool-cases (d.is_integral m)) [
    | inl e ↦ rw (e, sym (laws.is_integral-same m n same) ∙ e, laws.int_text-same m n same e) refl
    | inr e ↦
        rw (e, sym (laws.is_integral-same m n same) ∙ e, laws.normal_text-same m n same e) refl
  ]

  numeric_string-number :
      (v : Value) (number : d.Decimal)
      → IsNumber v number
      → numeric_string lower d (some v) ≡ number_text lower d (some number)
  unfolding numeric_string
  numeric_string-number Value.null number h = absurd h
  numeric_string-number _ number h = ap (number_text lower d) h

  numeric_string-SameNumber :
      (v w : Option Value) → SameNumber v w → numeric_string lower d v ≡ numeric_string lower d w
  numeric_string-SameNumber v w (inl e) = ap (numeric_string lower d) e
  numeric_string-SameNumber v w (inr (a, b, p, q, m, n, is_m, is_n, same)) =
      ap (numeric_string lower d) p
      ∙ numeric_string-number a m is_m
      ∙ number_text-same m n same
      ∙ sym (numeric_string-number b n is_n)
      ∙ sym (ap (numeric_string lower d) q)

  -- Envelopes of one version whose payloads have the same accepted requirements (a dictionary) have
  -- one fingerprint for a provider, if their authorizations name the same payer, recipient and nonce
  -- up to the case of hexadecimal texts, and the same value and validity up to the spelling of the
  -- numbers; whatever else the payloads hold (the signature above all) and whatever the payment
  -- requirements are.
  pub fingerprint-SameAuthorization :
      (digest : CanonicalPayment → String) (e f : FacilitatorEnvelope) (provider : String)
      (accepted : Fields)
      → e.x402_version ≡ f.x402_version
      → Json.get "accepted" e.payment_payload ≡ some (Value.dict accepted)
      → Json.get "accepted" f.payment_payload ≡ some (Value.dict accepted)
      → SameAuthorization
          (authorization_of_payload e.payment_payload)
          (authorization_of_payload f.payment_payload)
      → payment_fingerprint lower d digest e provider
        ≡ payment_fingerprint lower d digest f provider
  unfolding payment_fingerprint canonical_payment
  fingerprint-SameAuthorization digest e f provider accepted version by_e by_f same =
      let (payer, to, nonce, value, after, before) = same in
      rw
        (
          by_e,
          by_f,
          version,
          lower_hex-SameHex _ _ payer,
          lower_hex-SameHex _ _ to,
          lower_hex-SameHex _ _ nonce,
          numeric_string-SameNumber _ _ value,
          numeric_string-SameNumber _ _ after,
          numeric_string-SameNumber _ _ before,
        )
        refl
