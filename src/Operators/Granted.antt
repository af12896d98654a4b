-- ===== src/Operators/Granted.antt =====
-- Whom the operations of the facilitator are granted to.
use x402_hosted_facilitator.Common.{
  ℕ, String, ◌≡◌, refl, sym, ap, ◌∙◌, Bool, true, false, not, Option, none, some, string_eq,
}
use x402_hosted_facilitator.Common.Int.{ℤ, int_ltb, plus, take_away}
use x402_hosted_facilitator.Json
use x402_hosted_facilitator.Json.{Fields}
use x402_hosted_facilitator.Tenancy.{contains}
use x402_hosted_facilitator.Operators.{
  OperationsPermission, AuthorizationObject, Principal, Refusal, Authorized, granted, refused,
  OidcConfig, Verifiers, str_claim, int_claim, audiences_from_claim, intersects, first_refusal,
  refuse_if, token_type, check_issuer, check_expiry, check_begun, check_type, validate_claims,
  bearer_token, with_subject, validated, verified, with_token, authenticate, checked,
  after_authentication, authorize,
}

first_refusal-none : (a b : Option Refusal) → first_refusal a b ≡ none → (a ≡ none) × (b ≡ none)
first_refusal-none none b h = (refl, h)
first_refusal-none (some r) b h = absurd (cc)

refuse_if-none : (b : Bool) (message : String) → refuse_if b message ≡ none → b ≡ false
refuse_if-none false message h = refl
refuse_if-none true message h = absurd (cc)

not-false : (b : Bool) → not b ≡ false → b ≡ true
not-false true h = refl
not-false false h = absurd (cc)

module _ (v : Verifiers) (config : OidcConfig) where
  -- A time before which the token does not hold, if the claim gives one, is not to come, up to the
  -- clock skew.
  abbrev pub HasBegun : ℕ → String → Fields → Type 0
  HasBegun now name claims =
      (time : ℤ)
      → int_claim v config name claims ≡ some time
      → int_ltb (ℤ.pos now) (take_away time config.clock_skew_seconds) ≡ false

  -- The claims name the configured issuer and one of the audiences, are in force up to the clock
  -- skew, and have an accepted type.
  abbrev pub AreValid : ℕ → Fields → Type 0
  AreValid now claims =
      (str_claim "iss" claims ≡ some config.issuer)
      × (intersects (audiences_from_claim (Json.get "aud" claims)) config.audiences ≡ true)
      × ((exp : ℤ) × (int_claim v config "exp" claims ≡ some exp)
          × (int_ltb (plus exp config.clock_skew_seconds) (ℤ.pos now) ≡ false))
      × HasBegun now "nbf" claims
      × HasBegun now "iat" claims
      × ((type : String) × (token_type claims ≡ some type)
          × (contains type config.accepted_token_types ≡ true))

  check_issuer-none : (o : Option String) → check_issuer v config o ≡ none → o ≡ some config.issuer
  check_issuer-none none h = absurd (cc)
  check_issuer-none (some issuer) h =
      ap some ((string_eq.beq_iff issuer config.issuer).0 (not-false _ (refuse_if-none _ _ h)))

  check_expiry-none :
      (now : ℕ) (o : Option ℤ)
      → check_expiry v config now o ≡ none
      → (exp : ℤ) × (o ≡ some exp)
        × (int_ltb (plus exp config.clock_skew_seconds) (ℤ.pos now) ≡ false)
  check_expiry-none now none h = absurd (cc)
  check_expiry-none now (some exp) h = (exp, refl, refuse_if-none _ _ h)

  check_begun-none :
      (now : ℕ) (message : String) (o : Option ℤ)
      → check_begun v config now message o ≡ none
      → (time : ℤ) → o ≡ some time
      → int_ltb (ℤ.pos now) (take_away time config.clock_skew_seconds) ≡ false
  check_begun-none now message none h time e = absurd (cc)
  check_begun-none now message (some other) h time e =
      let same : other ≡ time = cc (e) in rw same at (refuse_if-none _ _ h)

  check_type-none :
      (o : Option String)
      → check_type v config o ≡ none
      → (type : String) × (o ≡ some type) × (contains type config.accepted_token_types ≡ true)
  check_type-none none h = absurd (cc)
  check_type-none (some type) h = (type, refl, not-false _ (refuse_if-none _ _ h))

  validate_claims-AreValid :
      (now : ℕ) (claims : Fields) → validate_claims v config now claims ≡ none → AreValid now claims
  unfolding validate_claims
  validate_claims-AreValid now claims h =
      let (issuer, a) = first_refusal-none _ _ h in
      let (audience, b) = first_refusal-none _ _ a in
      let (expiry, c) = first_refusal-none _ _ b in
      let (not_before, d) = first_refusal-none _ _ c in
      let (issued, type) = first_refusal-none _ _ d in
      (
        check_issuer-none _ issuer,
        not-false _ (refuse_if-none _ _ audience),
        check_expiry-none now _ expiry,
        check_begun-none now _ _ not_before,
        check_begun-none now _ _ issued,
        check_type-none _ type,
      )

  -- The principal is the subject of verified and valid claims.
  abbrev pub IsSubject : Principal → ℕ → String → Type 0
  IsSubject principal now token =
      (claims : Fields) × (v.verify token ≡ some claims)
      × AreValid now claims
      × (str_claim "sub" claims ≡ some principal.subject)

  with_subject-granted :
      (claims : Fields) (sub : Option String) (principal : Principal)
      → with_subject v config claims sub ≡ granted principal
      → sub ≡ some principal.subject
  with_subject-granted claims none principal h = absurd (cc)
  with_subject-granted claims (some subject) principal h =
      let same = ap (λ r. elim r [ granted p ↦ p.subject | refused e ↦ "" ]) h in ap some same

  validated-granted :
      (now : ℕ) (claims : Fields) (refusal : Option Refusal) (principal : Principal)
      → validate_claims v config now claims ≡ refusal
      → validated v config claims refusal ≡ granted principal
      → AreValid now claims × (str_claim "sub" claims ≡ some principal.subject)
  validated-granted now claims (some refusal) principal e h = absurd (cc)
  validated-granted now claims none principal e h =
      (validate_claims-AreValid now claims e, with_subject-granted claims _ principal h)

  verified-granted :
      (now : ℕ) (token : String) (found : Option Fields) (principal : Principal)
      → v.verify token ≡ found
      → verified v config now found ≡ granted principal
      → IsSubject principal now token
  verified-granted now token none principal e h = absurd (cc)
  verified-granted now token (some claims) principal e h =
      let (valid, subject) = validated-granted now claims _ principal refl h in
      (claims, e, valid, subject)

  with_token-granted :
      (now : ℕ) (found : Option String) (principal : Principal)
      → with_token v config now found ≡ granted principal
      → (token : String) × (found ≡ some token) × IsSubject principal now token
  with_token-granted now none principal h = absurd (cc)
  with_token-granted now (some token) principal h =
      (token, refl, verified-granted now token _ principal refl h)

  checked-granted :
      (p principal : Principal) (answer : Option Bool)
      → checked v config p answer ≡ granted principal
      → (p ≡ principal) × (answer ≡ some true)
  checked-granted p principal none h = absurd (cc)
  checked-granted p principal (some false) h = absurd (cc)
  checked-granted p principal (some true) h = (cc, refl)

  after-granted :
      (permission : OperationsPermission) (obj : AuthorizationObject) (r : Authorized)
      (principal : Principal)
      → after_authentication v config permission obj r ≡ granted principal
      → (r ≡ granted principal) × (v.check principal permission obj ≡ some true)
  after-granted permission obj (refused e) principal h = absurd (cc)
  after-granted permission obj (granted p) principal h =
      let (same, allowed) = checked-granted p principal _ h in
      (ap granted same, ap (λ q. v.check q permission obj) (sym same) ∙ allowed)

  -- An operation is granted only to the bearer of a token that the verifier accepts, whose claims
  -- name the configured issuer, one of the audiences and the principal as subject, are in force up to
  -- the clock skew and of an accepted type, and only if the relationship check answers that this
  -- principal has that permission on that object.
  pub authorize-IsSubject :
      (header : Option String) (permission : OperationsPermission) (obj : AuthorizationObject)
      (now : ℕ) (principal : Principal)
      → authorize v config header permission obj now ≡ granted principal
      → ((token : String) × (bearer_token v config header ≡ some token)
          × IsSubject principal now token)
        × (v.check principal permission obj ≡ some true)
  unfolding authorize authenticate
  authorize-IsSubject header permission obj now principal h =
      let (known, allowed) = after-granted permission obj _ principal h in
      (with_token-granted now _ principal known, allowed)
