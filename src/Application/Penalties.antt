-- ===== src/Application/Penalties.antt =====
-- Which answers of the handlers are charged to the client as invalid requests.
use x402_hosted_facilitator.Common.{
  ℕ, String, ◌≡◌, refl, ap, inl, inr, Bool, true, false, ◌||◌, Option, none, some, ◌==◌, nat_eq,
  Error, Result, ok, err, key_error, permission_error, Bool-cases, arith,
}
use x402_hosted_facilitator.RateLimit.Buckets.{RateLimitRequest, HostedRateLimitEndpoint}
use x402_hosted_facilitator.Tenancy.Resolver.{ResolvedSellerAccess}
use x402_hosted_facilitator.Engine.{FacilitatorEnvelope}
use x402_hosted_facilitator.Application.{
  Services, Handler, Addresses, Request, Response, http_error, Raised, EngineResult, returned,
  raised, client_host, invalid_request, penalize, answer_raised, after_engine, run_route,
  route_allowed, context_error, settle_in_context, settle, verify_limited, verify_in_context,
  verify,
}

-- The statuses by which the handlers refuse what a client sent.
abbrev pub is_client_error : ℕ → Bool
is_client_error status = status == 400 || (status == 401 || (status == 403 || status == 404))

abbrev status_of : {A : Type 0} → Response A → ℕ
status_of (http_error status detail) = status
status_of _ = 0

-- an answer by another status is no client error
no_client_error :
    {A : Type 0} (r : Response A) (status : ℕ) (detail : String)
    → r ≡ http_error status detail
    → is_client_error (status_of r) ≡ false
    → is_client_error status ≡ true
    → ⊥
no_client_error r status detail h other g =
    let same : status_of r ≡ status = ap status_of h in ground (arith, same, other, g)

module _ {W A : Type 0} (s : Services W A) (a : Addresses) where
  -- The last thing done was a check of an invalid request of the client, and it was allowed.
  abbrev pub IsCharged : Request → W → Type 0
  IsCharged request after =
      (q : RateLimitRequest) × (before : W) × (q.endpoint ≡ HostedRateLimitEndpoint.invalid)
      × (q.client_host ≡ client_host a request)
      × (s.check q before ≡ (true, after))

  -- If it is a client error, it was charged.
  abbrev pub ChargesErrors : Request → Response A × W → Type 0
  ChargesErrors request r =
      (status : ℕ) (detail : String)
      → r.0 ≡ http_error status detail
      → is_client_error status ≡ true
      → IsCharged request r.1

  penalize-ChargesErrors :
      (request : Request) (access : Option ResolvedSellerAccess) (st : ℕ) (d : String) (w : W)
      → ChargesErrors request (penalize s a request access st d w)
  unfolding penalize
  penalize-ChargesErrors request access st d w status detail h g =
      let q = invalid_request a request access in
      elim (Bool-cases (s.check q w).0) [
        | inl e ↦ (q, w, refl, refl, ap (λ (b : Bool). (b, (s.check q w).1)) e)
        | inr e ↦ absurd (no_client_error _ status detail (rw e at h) refl g)
      ]

  uncharged :
      (request : Request) (r : Response A) (w : W)
      → is_client_error (status_of r) ≡ false
      → ChargesErrors request (r, w)
  uncharged request r w other status detail h g = absurd (no_client_error r status detail h other g)

  answer_raised-ChargesErrors :
      (handler : Handler) (request : Request) (access : ResolvedSellerAccess) (e : Raised) (w : W)
      → ChargesErrors request (answer_raised s a handler request access e w)
  unfolding answer_raised
  answer_raised-ChargesErrors handler request access (Raised.protocol_validation d) w =
      penalize-ChargesErrors request (some access) _ _ w
  answer_raised-ChargesErrors handler request access Raised.payload_validation w =
      penalize-ChargesErrors request (some access) _ _ w
  answer_raised-ChargesErrors Handler.settles request access Raised.rate_limit_exceeded w =
      uncharged request _ w refl
  answer_raised-ChargesErrors Handler.verifies request access Raised.rate_limit_exceeded w =
      uncharged request _ w refl
  answer_raised-ChargesErrors handler request access Raised.provider_unavailable w =
      uncharged request _ w refl
  answer_raised-ChargesErrors handler request access Raised.permission w =
      penalize-ChargesErrors request (some access) _ _ w
  answer_raised-ChargesErrors handler request access Raised.lookup w =
      penalize-ChargesErrors request (some access) _ _ w
  answer_raised-ChargesErrors handler request access Raised.other w = uncharged request _ w refl

  after_engine-ChargesErrors :
      (handler : Handler) (request : Request) (access : ResolvedSellerAccess) (r : EngineResult A)
      (w : W)
      → ChargesErrors request (after_engine s a handler request access (r, w))
  after_engine-ChargesErrors handler request access (returned answer) w = uncharged request _ w refl
  after_engine-ChargesErrors handler request access (raised e) w =
      answer_raised-ChargesErrors handler request access e w

  run_route-ChargesErrors :
      (handler : Handler) (envelope : FacilitatorEnvelope) (request : Request)
      (access : ResolvedSellerAccess) (w : W)
      → ChargesErrors request (run_route s a handler envelope request access w)
  run_route-ChargesErrors handler envelope request access w =
      elim (Bool-cases (route_allowed s a envelope w)) [
        | inl e ↦ rw (e, run_route) (after_engine-ChargesErrors handler request access _ _)
        | inr e ↦ rw (e, run_route) (uncharged request _ w refl)
      ]

  context_error-ChargesErrors :
      (request : Request) (e : Error) (w : W)
      → ChargesErrors request (context_error s a request e w)
  context_error-ChargesErrors request (key_error _) w = penalize-ChargesErrors request none _ _ w
  context_error-ChargesErrors request (permission_error _) w =
      penalize-ChargesErrors request none _ _ w
  context_error-ChargesErrors request _ w = uncharged request _ w refl

  settle_in_context-ChargesErrors :
      (envelope : FacilitatorEnvelope) (request : Request) (r : Result ResolvedSellerAccess) (w : W)
      → ChargesErrors request (settle_in_context s a envelope request r w)
  settle_in_context-ChargesErrors envelope request (err e) w =
      context_error-ChargesErrors request e w
  settle_in_context-ChargesErrors envelope request (ok access) w =
      run_route-ChargesErrors Handler.settles envelope request access w

  verify_limited-ChargesErrors :
      (envelope : FacilitatorEnvelope) (request : Request) (access : ResolvedSellerAccess)
      (allowed : Bool) (w : W)
      → ChargesErrors request (verify_limited s a envelope request access (allowed, w))
  verify_limited-ChargesErrors envelope request access true w =
      run_route-ChargesErrors Handler.verifies envelope request access w
  verify_limited-ChargesErrors envelope request access false w = uncharged request _ w refl

  verify_in_context-ChargesErrors :
      (envelope : FacilitatorEnvelope) (request : Request) (r : Result ResolvedSellerAccess) (w : W)
      → ChargesErrors request (verify_in_context s a envelope request r w)
  verify_in_context-ChargesErrors envelope request (err e) w =
      context_error-ChargesErrors request e w
  verify_in_context-ChargesErrors envelope request (ok access) w =
      verify_limited-ChargesErrors envelope request access _ _

  -- Wherever /settle or /verify answers a client error (400, 401, 403 or 404), the last thing it did
  -- was to charge the client's host with an invalid request, and the rate limiter allowed that.
  pub handlers-ChargesErrors :
      (envelope : FacilitatorEnvelope) (request : Request) (w : W)
      → ChargesErrors request (settle s a envelope request w)
        × ChargesErrors request (verify s a envelope request w)
  unfolding settle verify
  handlers-ChargesErrors envelope request w = elim (Bool-cases (envelope.x402_version == 2)) [
    | inl e ↦ (
      rw (e, settle) (settle_in_context-ChargesErrors envelope request _ w),
      rw (e, verify) (verify_in_context-ChargesErrors envelope request _ w),
    )
    | inr e ↦ (
      rw (e, settle) (penalize-ChargesErrors request none _ _ w),
      rw (e, verify) (penalize-ChargesErrors request none _ _ w),
    )
  ]
