-- ===== src/Application/Admission.antt =====
-- When the handlers answer with what the engine returned.
use mathlib.Core.Path.{subst}
use x402_hosted_facilitator.Common.{
  ℕ, String, ◌≡◌, ◌↔◌, refl, sym, inl, inr, Bool, true, false, Option, none, some, ◌==◌, nat_eq,
  Error, Result, ok, err, key_error, permission_error, Bool-cases,
}
use x402_hosted_facilitator.RateLimit.Buckets.{HostedRateLimitEndpoint}
use x402_hosted_facilitator.Tenancy.Resolver.{ResolvedSellerAccess}
use x402_hosted_facilitator.Engine.{FacilitatorEnvelope}
use x402_hosted_facilitator.Application.{
  Services, Handler, invalid_request, Addresses, Request, Response, answered, Raised, EngineResult,
  returned, raised, penalize, answer_raised, after_engine, run_route, route_allowed, context_error,
  settle_in_context, settle, verify_limited, verify_in_context, verify, endpoint_request,
}

ok_inj : {A : Type 0} {x y : A} → ok x ≡ ok y → x ≡ y
ok_inj h = cc

module _ {W A : Type 0} (s : Services W A) (a : Addresses) where
  -- It is no answer of the engine.
  abbrev Refuses : Response A × W → Type 0
  Refuses r = (answer : A) → r.0 ≡ answered answer → ⊥

  penalize-Refuses :
      (request : Request) (access : Option ResolvedSellerAccess) (status : ℕ) (detail : String)
      (w : W)
      → Refuses (penalize s a request access status detail w)
  unfolding penalize
  penalize-Refuses request access status detail w answer h =
      elim (Bool-cases (s.check (invalid_request a request access) w).0) [
        | inl e ↦ cc (rw e at h)
        | inr e ↦ cc (rw e at h)
      ]

  answer_raised-Refuses :
      (handler : Handler) (request : Request) (access : ResolvedSellerAccess) (e : Raised) (w : W)
      → Refuses (answer_raised s a handler request access e w)
  unfolding answer_raised
  answer_raised-Refuses handler request access (Raised.protocol_validation d) w answer h =
      penalize-Refuses request (some access) _ _ w answer h
  answer_raised-Refuses handler request access Raised.payload_validation w answer h =
      penalize-Refuses request (some access) _ _ w answer h
  answer_raised-Refuses Handler.settles request access Raised.rate_limit_exceeded w answer h = cc
  answer_raised-Refuses Handler.verifies request access Raised.rate_limit_exceeded w answer h = cc
  answer_raised-Refuses handler request access Raised.provider_unavailable w answer h = cc
  answer_raised-Refuses handler request access Raised.permission w answer h =
      penalize-Refuses request (some access) _ _ w answer h
  answer_raised-Refuses handler request access Raised.lookup w answer h =
      penalize-Refuses request (some access) _ _ w answer h
  answer_raised-Refuses handler request access Raised.other w answer h = cc

  context_error-Refuses :
      (request : Request) (e : Error) (w : W) → Refuses (context_error s a request e w)
  context_error-Refuses request (key_error _) w answer h =
      penalize-Refuses request none _ _ w answer h
  context_error-Refuses request (permission_error _) w answer h =
      penalize-Refuses request none _ _ w answer h
  context_error-Refuses request _ w answer h = cc

  after_engine-answers_iff :
      (handler : Handler) (request : Request) (access : ResolvedSellerAccess) (r : EngineResult A)
      (w : W) (answer : A)
      → ((after_engine s a handler request access (r, w)).0 ≡ answered answer)
        ↔ (r ≡ returned answer)
  after_engine-answers_iff handler request access (returned b) w answer = ((λ h. cc), (λ h. cc))
  after_engine-answers_iff handler request access (raised e) w answer = (
    (λ h. absurd (answer_raised-Refuses handler request access e w answer h)),
    (λ h. absurd (cc)),
  )

  -- The route is not paused, and the engine returns the answer.
  abbrev pub Serves : Handler → FacilitatorEnvelope → ResolvedSellerAccess → W → A → Type 0
  Serves handler envelope access w answer =
      (route_allowed s a envelope w ≡ true)
      × ((s.engine handler envelope access w).0 ≡ returned answer)

  run_route-answers_iff :
      (handler : Handler) (envelope : FacilitatorEnvelope) (request : Request)
      (access : ResolvedSellerAccess) (w : W) (answer : A)
      → ((run_route s a handler envelope request access w).0 ≡ answered answer)
        ↔ Serves handler envelope access w answer
  run_route-answers_iff handler envelope request access w answer =
      elim (Bool-cases (route_allowed s a envelope w)) [
        | inl e ↦
            rw (e, run_route)
              (let rest =
                  after_engine-answers_iff handler request access
                    (s.engine handler envelope access w).0 (s.engine handler envelope access w).1
                    answer in
                ((λ h. (refl, rest.0 h)), (λ h. rest.1 h.1)))
        | inr e ↦ rw (e, run_route) ((λ h. absurd (cc)), (λ h. absurd (cc (h.0))))
      ]

  settle_in_context-answers_iff :
      (envelope : FacilitatorEnvelope) (request : Request) (r : Result ResolvedSellerAccess) (w : W)
      (answer : A)
      → ((settle_in_context s a envelope request r w).0 ≡ answered answer) ↔ (
          (access : ResolvedSellerAccess) × (r ≡ ok access)
          × Serves Handler.settles envelope access w answer)
  settle_in_context-answers_iff envelope request (err e) w answer =
      ((λ h. absurd (context_error-Refuses request e w answer h)), (λ h. absurd (cc (h.1))))
  settle_in_context-answers_iff envelope request (ok access) w answer =
      let rest = run_route-answers_iff Handler.settles envelope request access w answer in
      (
        (λ h. (access, refl, rest.0 h)),
        (λ h.
            let (other, same, serves) = h in
            rest.1
              (subst (λ x. Serves Handler.settles envelope x w answer) (sym (ok_inj same)) serves)),
      )

  -- /settle answers what the engine returned exactly if the envelope has version 2, the request
  -- resolves to a seller's access, the route is not paused, and the engine returns that.
  pub settle-answers_iff :
      (envelope : FacilitatorEnvelope) (request : Request) (w : W) (answer : A)
      → ((settle s a envelope request w).0 ≡ answered answer) ↔ (
          (envelope.x402_version ≡ 2)
          × ((access : ResolvedSellerAccess) × (s.resolve_access request.authorization true
                ≡ ok access)
              × Serves Handler.settles envelope access w answer))
  unfolding settle
  settle-answers_iff envelope request w answer =
      let version = nat_eq.beq_iff envelope.x402_version 2 in
      elim (Bool-cases (envelope.x402_version == 2)) [
        | inl e ↦
            rw (e, settle)
              (let rest =
                  settle_in_context-answers_iff envelope request
                    (s.resolve_access request.authorization true) w answer in
                ((λ h. (version.0 e, rest.0 h)), (λ h. rest.1 h.1)))
        | inr e ↦
            rw (e, settle)
              (
                (λ h. absurd (penalize-Refuses request none _ _ w answer h)),
                (λ h. absurd (cc (version.1 h.0))),
              )
      ]

  -- The rate limiter lets the request through, and what it leaves serves it.
  abbrev pub ServesLimited : FacilitatorEnvelope → Request → ResolvedSellerAccess → W → A → Type 0
  ServesLimited envelope request access w answer =
      let limited = s.check (endpoint_request a HostedRateLimitEndpoint.verify request access) w in
      (limited.0 ≡ true) × Serves Handler.verifies envelope access limited.1 answer

  verify_limited-answers_iff :
      (envelope : FacilitatorEnvelope) (request : Request) (access : ResolvedSellerAccess)
      (allowed : Bool) (w : W) (answer : A)
      → ((verify_limited s a envelope request access (allowed, w)).0 ≡ answered answer)
        ↔ ((allowed ≡ true) × Serves Handler.verifies envelope access w answer)
  verify_limited-answers_iff envelope request access true w answer =
      let rest = run_route-answers_iff Handler.verifies envelope request access w answer in
      ((λ h. (refl, rest.0 h)), (λ h. rest.1 h.1))
  verify_limited-answers_iff envelope request access false w answer =
      ((λ h. absurd (cc)), (λ h. absurd (cc (h.0))))

  verify_in_context-answers_iff :
      (envelope : FacilitatorEnvelope) (request : Request) (r : Result ResolvedSellerAccess) (w : W)
      (answer : A)
      → ((verify_in_context s a envelope request r w).0 ≡ answered answer) ↔ (
          (access : ResolvedSellerAccess) × (r ≡ ok access)
          × ServesLimited envelope request access w answer)
  verify_in_context-answers_iff envelope request (err e) w answer =
      ((λ h. absurd (context_error-Refuses request e w answer h)), (λ h. absurd (cc (h.1))))
  verify_in_context-answers_iff envelope request (ok access) w answer =
      let rest = verify_limited-answers_iff envelope request access _ _ answer in
      (
        (λ h. (access, refl, rest.0 h)),
        (λ h.
            let (other, same, serves) = h in
            rest.1
              (subst (λ x. ServesLimited envelope request x w answer) (sym (ok_inj same)) serves)),
      )

  -- /verify answers what the engine returned exactly if the envelope has version 2, the request
  -- resolves to a seller's access, the rate limiter lets it through, and then the route is not paused
  -- and the engine returns that.
  pub verify-answers_iff :
      (envelope : FacilitatorEnvelope) (request : Request) (w : W) (answer : A)
      → ((verify s a envelope request w).0 ≡ answered answer) ↔ (
          (envelope.x402_version ≡ 2)
          × ((access : ResolvedSellerAccess) × (s.resolve_access request.authorization true
                ≡ ok access)
              × ServesLimited envelope request access w answer))
  unfolding verify
  verify-answers_iff envelope request w answer =
      let version = nat_eq.beq_iff envelope.x402_version 2 in
      elim (Bool-cases (envelope.x402_version == 2)) [
        | inl e ↦
            rw (e, verify)
              (let rest =
                  verify_in_context-answers_iff envelope request
                    (s.resolve_access request.authorization true) w answer in
                ((λ h. (version.0 e, rest.0 h)), (λ h. rest.1 h.1)))
        | inr e ↦
            rw (e, verify)
              (
                (λ h. absurd (penalize-Refuses request none _ _ w answer h)),
                (λ h. absurd (cc (version.1 h.0))),
              )
      ]
