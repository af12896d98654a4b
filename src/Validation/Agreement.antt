-- ===== src/Validation/Agreement.antt =====
-- What an envelope that passed the validation agrees on.
use x402_hosted_facilitator.Common.{
  String, ◌≡◌, refl, sym, ap, ◌∙◌, ◌⊎◌, inl, inr, Bool, true, false, Option, none, some, List, [],
  ◌∷◌, ◌==◌, string_eq, ok, err, Error, Result, All, Bool-cases, Option-cases,
}
use x402_hosted_facilitator.Json
use x402_hosted_facilitator.Json.{Value, Fields}
use x402_hosted_facilitator.Engine.{FacilitatorEnvelope}
use x402_hosted_facilitator.Validation.{
  checked_fields, canonical_value, str_of, canonical_address, canonical_amount, compare_texts,
  compare_values, first_error, check_fields, same_timeouts, demand, check_accepted, check_envelope,
  validate_settlement_envelope,
}
use x402_hosted_facilitator.Validation.Numerals.{Decimals}

first_error-none : (a b : Option Error) → first_error a b ≡ none → (a ≡ none) × (b ≡ none)
first_error-none none b h = (refl, h)
first_error-none (some e) b h = absurd (cc)

module _ (lower : String → String) (d : Decimals) where
  -- Both sides have the field, and the two values read as one text.
  abbrev pub AgreesOn : (Value → String → Type 0) → Fields → Fields → String → Type 0
  AgreesOn Reads accepted requirements name =
      (v : Value) × (w : Value) × (text : String) × (Json.get name accepted ≡ some v)
      × (Json.get name requirements ≡ some w)
      × Reads v text
      × Reads w text

  -- A scheme or a network reads as its text.
  abbrev pub IsText : Value → String → Type 0
  IsText v text = str_of lower d v ≡ text

  -- An asset or a payee reads in lower case.
  abbrev pub IsAddress : Value → String → Type 0
  IsAddress (Value.str address) text = lower address ≡ text
  IsAddress v text = str_of lower d v ≡ text

  -- An amount is a decimal number, and reads as an integer if it is one.
  abbrev pub IsAmount : Value → String → Type 0
  IsAmount v text =
      (amount : d.Decimal) × (d.parse (str_of lower d v) ≡ some amount)
      × (((d.is_integral amount ≡ true) × (d.int_text amount ≡ ok text))
          ⊎ ((d.is_integral amount ≡ false) × (d.normal_text amount ≡ text)))

  same_text : (x : Result String) (a b : String) → x ≡ ok a → x ≡ ok b → a ≡ b
  same_text x a b h g = cc

  canonical_address-IsAddress :
      (v : Value) (text : String) → canonical_address lower d v ≡ text → IsAddress v text
  canonical_address-IsAddress (Value.str address) text h = h
  canonical_address-IsAddress _ text h = h

  canonical_amount-IsAmount :
      (v : Value) (text : String) → canonical_amount lower d v ≡ ok text → IsAmount v text
  canonical_amount-IsAmount v text h = elim (Option-cases (d.parse (str_of lower d v))) [
    | inl e ↦ absurd (cc (rw e at h))
    | inr (amount, e) ↦ elim (Bool-cases (d.is_integral amount)) [
      | inl i ↦ (amount, e, inl (i, rw (e, i) at h))
      | inr i ↦ (amount, e, inr (i, same_text _ _ _ refl (rw (e, i) at h)))
    ]
  ]

  -- Both sides have the field, with one canonical text.
  abbrev AreCanonical : Fields → Fields → String → Type 0
  AreCanonical accepted requirements name =
      (v : Value) × (w : Value) × (text : String) × (Json.get name accepted ≡ some v)
      × (Json.get name requirements ≡ some w)
      × (canonical_value lower d name v ≡ ok text)
      × (canonical_value lower d name w ≡ ok text)

  compare_texts-none :
      (a b : Result String)
      → compare_texts lower d a b ≡ none
      → (text : String) × (a ≡ ok text) × (b ≡ ok text)
  compare_texts-none (err e) b h = absurd (cc)
  compare_texts-none (ok a) (err e) h = absurd (cc)
  compare_texts-none (ok a) (ok b) h = elim (Bool-cases (a == b)) [
    | inl e ↦ (a, refl, ap ok (sym ((string_eq.beq_iff a b).0 e)))
    | inr e ↦ absurd (cc (rw e at h))
  ]

  compare_values-none :
      (name : String) (accepted requirements : Fields) (v w : Option Value)
      → Json.get name accepted ≡ v
      → Json.get name requirements ≡ w
      → compare_values lower d name v w ≡ none
      → AreCanonical accepted requirements name
  compare_values-none name accepted requirements none w p q h = absurd (cc)
  compare_values-none name accepted requirements (some v) none p q h = absurd (cc)
  compare_values-none name accepted requirements (some v) (some w) p q h =
      let (text, a, b) = compare_texts-none _ _ h in (v, w, text, p, q, a, b)

  check_fields-none :
      (names : List String) (accepted requirements : Fields)
      → check_fields lower d names accepted requirements ≡ none
      → All (AreCanonical accepted requirements) names
  unfolding check_fields
  check_fields-none [] accepted requirements h = tt
  check_fields-none (name ∷ names) accepted requirements h =
      let (this, rest) = first_error-none _ _ h in
      (
        compare_values-none name accepted requirements _ _ refl refl this,
        check_fields-none names accepted requirements rest,
      )

  demand-none : (b : Bool) → demand lower d b ≡ none → b ≡ true
  demand-none true h = refl
  demand-none false h = absurd (cc)

  checked :
      (envelope : FacilitatorEnvelope) (value : Option Value) (accepted : Fields)
      → check_envelope lower d envelope value ≡ ok accepted
      → (value ≡ some (Value.dict accepted)) × (check_accepted lower d envelope accepted ≡ none)
  checked envelope (some (Value.dict fields)) accepted h =
      elim (Option-cases (check_accepted lower d envelope fields)) [
        | inl e ↦
            let same : fields ≡ accepted = cc (rw (e, check_envelope) at h) in
            (
              ap (λ f. some (Value.dict f)) same,
              ap (check_accepted lower d envelope) (sym same) ∙ e,
            )
        | inr (x, e) ↦ absurd (cc (rw (e, check_envelope) at h))
      ]
  checked envelope _ accepted h = absurd (cc)

  module _ (accepted requirements : Fields) where
    IsText-AgreesOn :
        (name : String)
        → ((v : Value) → canonical_value lower d name v ≡ ok (str_of lower d v))
        → AreCanonical accepted requirements name
        → AgreesOn IsText accepted requirements name
    IsText-AgreesOn name reads (v, w, text, p, q, a, b) =
        (v, w, text, p, q, same_text _ _ _ (reads v) a, same_text _ _ _ (reads w) b)

    IsAddress-AgreesOn :
        (name : String)
        → ((v : Value) → canonical_value lower d name v ≡ ok (canonical_address lower d v))
        → AreCanonical accepted requirements name
        → AgreesOn IsAddress accepted requirements name
    IsAddress-AgreesOn name reads (v, w, text, p, q, a, b) = (
      v,
      w,
      text,
      p,
      q,
      canonical_address-IsAddress v text (same_text _ _ _ (reads v) a),
      canonical_address-IsAddress w text (same_text _ _ _ (reads w) b),
    )

    IsAmount-AgreesOn :
        AreCanonical accepted requirements "amount"
        → AgreesOn IsAmount accepted requirements "amount"
    unfolding canonical_value
    IsAmount-AgreesOn (v, w, text, p, q, a, b) =
        (v, w, text, p, q, canonical_amount-IsAmount v text a, canonical_amount-IsAmount w text b)

  -- The field is missing on one side, or the two sides agree on it as texts.
  abbrev pub AgreesIfGiven : Fields → Fields → String → Type 0
  AgreesIfGiven accepted requirements name =
      (Json.get name accepted ≡ none)
      ⊎ ((Json.get name requirements ≡ none) ⊎ AgreesOn IsText accepted requirements name)

  timeouts-AgreesIfGiven :
      (accepted requirements : Fields) (v w : Option Value)
      → Json.get "maxTimeoutSeconds" accepted ≡ v
      → Json.get "maxTimeoutSeconds" requirements ≡ w
      → same_timeouts lower d v w ≡ true
      → AgreesIfGiven accepted requirements "maxTimeoutSeconds"
  timeouts-AgreesIfGiven accepted requirements none w p q h = inl p
  timeouts-AgreesIfGiven accepted requirements (some v) none p q h = inr (inl q)
  timeouts-AgreesIfGiven accepted requirements (some v) (some w) p q h =
      let same : str_of lower d v ≡ str_of lower d w =
        (string_eq.beq_iff (str_of lower d v) (str_of lower d w)).0 h in
      inr (inr (v, w, str_of lower d w, p, q, same, refl))

  -- An envelope that passes has a dictionary as its accepted requirements. It and the payment
  -- requirements both have a scheme and a network, which agree as texts, an asset and a payee, which
  -- agree in lower case where they are texts, and an amount, which is a decimal number on both sides
  -- and is written alike in canonical form. Timeouts that both give agree as texts, the extra fields
  -- are equal, and the payload has the version of the envelope.
  pub validate-AgreesOn :
      (envelope : FacilitatorEnvelope) (accepted : Fields)
      → validate_settlement_envelope lower d envelope ≡ ok accepted
      → (Json.get "accepted" envelope.payment_payload ≡ some (Value.dict accepted))
        × AgreesOn IsText accepted envelope.payment_requirements "scheme"
        × AgreesOn IsText accepted envelope.payment_requirements "network"
        × AgreesOn IsAddress accepted envelope.payment_requirements "asset"
        × AgreesOn IsAmount accepted envelope.payment_requirements "amount"
        × AgreesOn IsAddress accepted envelope.payment_requirements "payTo"
        × AgreesIfGiven accepted envelope.payment_requirements "maxTimeoutSeconds"
        × (d.equals_int (Json.get "x402Version" envelope.payment_payload) envelope.x402_version
            ≡ true)
        × (d.equals (Json.get "extra" accepted) (Json.get "extra" envelope.payment_requirements)
            ≡ true)
  unfolding validate_settlement_envelope canonical_value
  validate-AgreesOn envelope accepted h =
      let requirements = envelope.payment_requirements in
      let (found, passed) =
        checked envelope (Json.get "accepted" envelope.payment_payload) accepted h in
      let (fields, rest) = first_error-none _ _ passed in
      let (timeouts, more) = first_error-none _ _ rest in
      let (version, extra) = first_error-none _ _ more in
      let agreed = check_fields-none checked_fields accepted requirements fields in
      (
        found,
        IsText-AgreesOn accepted requirements "scheme" (λ v. refl) agreed.0,
        IsText-AgreesOn accepted requirements "network" (λ v. refl) agreed.1.0,
        IsAddress-AgreesOn accepted requirements "asset" (λ v. refl) agreed.1.1.0,
        IsAmount-AgreesOn accepted requirements agreed.1.1.1.0,
        IsAddress-AgreesOn accepted requirements "payTo" (λ v. refl) agreed.1.1.1.1.0,
        timeouts-AgreesIfGiven accepted requirements _ _ refl refl (demand-none _ timeouts),
        demand-none _ version,
        demand-none _ extra,
      )
