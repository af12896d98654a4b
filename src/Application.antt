-- ===== src/Application.antt =====
-- The route handlers of src/hosted_facilitator/hosted/app.py, without their telemetry: `verify` and
-- `settle`, with the request context, the rate limit, the pauses and the answer to each exception.
-- What they call is a `Services` on a state of any type: the rate limiter, the seller resolver, the
-- control plane, the router's name for an envelope, and the engine.
pub mod Admission
pub mod Penalties
pub mod Supported
pub mod Offers
use x402_hosted_facilitator.Common.{
  ℕ, String, Bool, true, false, ◌||◌, not, Option, none, some, ◌==◌, nat_eq, string_eq,
  if◌then◌else◌, Error, key_error, permission_error, Result, ok, err,
}
use x402_hosted_facilitator.Json
use x402_hosted_facilitator.Json.{Value}
use x402_hosted_facilitator.RateLimit.Buckets.{
  RateLimitPolicy, RateLimitRequest, HostedRateLimitEndpoint, default_rate_limit_policy,
  first_chars, truthy,
}
use x402_hosted_facilitator.Tenancy.{SellerAccountConfig, PaymentProfileConfig}
use x402_hosted_facilitator.Tenancy.Resolver.{ResolvedSellerAccess}
use x402_hosted_facilitator.Engine.{FacilitatorEnvelope}

-- what the handlers read of an HTTP request
pub record Request : Type 0 where
  pub authorization : Option String
  pub client : Option String
  pub cf_connecting_ip : String
  pub x_forwarded_for : String

-- the exception classes that the handlers tell apart, in their order, and HTTPException
pub data Raised : Type 0 where
  protocol_validation : String → Raised
  payload_validation rate_limit_exceeded provider_unavailable : Raised
  permission lookup other : Raised

pub data Response (A : Type 0) : Type 0 where
  answered : A → Response A
  http_error : ℕ → String → Response A
  -- an exception that no handler catches
  server_error : Response A

-- which of the engine's methods a handler calls
pub data Handler : Type 0 where
  verifies settles : Handler

pub data EngineResult (A : Type 0) : Type 0 where
  returned : A → EngineResult A
  raised : Raised → EngineResult A

pub record Services (W A : Type 0) : Type 0 where
  -- `(await rate_limiter.check(request)).allowed`
  pub check : RateLimitRequest → W → Bool × W
  pub resolve_access : Option String → Bool → Result ResolvedSellerAccess
  pub provider_name_for_envelope : FacilitatorEnvelope → String
  pub allows : String → Option String → W → Bool
  pub engine : Handler → FacilitatorEnvelope → ResolvedSellerAccess → W → EngineResult A × W

-- `_safe_client_host`
unfoldable pub safe_client_host : Option String → Option String
safe_client_host none = none
safe_client_host (some host) = if host == "" then none else some (first_chars 128 host)

-- Parameters: `str.strip`, the text before the first comma, and whether an address lies in a
-- network of trusted proxies (false for a text that is no address).
pub record Addresses : Type 0 where
  pub strip : String → String
  pub before_comma : String → String
  pub in_trusted_network : String → Bool

abbrev pub trusts : Addresses → Option String → Bool
trusts a none = false
trusts a (some host) = if host == "" then false else a.in_trusted_network host

-- `_ClientHostResolver.resolve`
unfoldable pub client_host : Addresses → Request → Option String
unfolding safe_client_host
client_host a request =
    if trusts a request.client
    then (if not (a.strip request.cf_connecting_ip == "")
        then safe_client_host (some (a.strip request.cf_connecting_ip))
        else if not (a.strip request.x_forwarded_for == "")
        then safe_client_host (some (a.strip (a.before_comma request.x_forwarded_for)))
        else safe_client_host request.client)
    else safe_client_host request.client

abbrev pub policy_of : Option ResolvedSellerAccess → RateLimitPolicy
policy_of none = default_rate_limit_policy
policy_of (some access) = access.payment_profile.rate_limits

abbrev seller_of : Option ResolvedSellerAccess → Option String
seller_of none = none
seller_of (some access) = some access.seller_account.seller_account_id

abbrev tenant_of : Option ResolvedSellerAccess → Option String
tenant_of none = none
tenant_of (some access) = some access.seller_account.tenant_id

module _ (a : Addresses) where
  -- `_consume_invalid_request`'s request
  abbrev pub invalid_request : Request → Option ResolvedSellerAccess → RateLimitRequest
  invalid_request request access = record {
    endpoint = HostedRateLimitEndpoint.invalid;
    seller_account_id = seller_of access;
    tenant_id = tenant_of access;
    client_host = client_host a request;
    policy = policy_of access;
  }

  -- `_enforce_rate_limit`'s request
  abbrev pub endpoint_request :
      HostedRateLimitEndpoint → Request → ResolvedSellerAccess → RateLimitRequest
  endpoint_request endpoint request access = record {
    endpoint = endpoint;
    seller_account_id = some access.seller_account.seller_account_id;
    tenant_id = some access.seller_account.tenant_id;
    client_host = client_host a request;
    policy = access.payment_profile.rate_limits;
  }

abbrev pub network_of : Option Value → Option String
network_of (some (Value.str network)) = some network
network_of _ = none

module _ {W A : Type 0} (s : Services W A) (a : Addresses) where
  -- `_penalize_invalid_request`, and the `raise` after it
  unfoldable pub penalize : Request → Option ResolvedSellerAccess → ℕ → String → W → Response A × W
  penalize request access status detail w =
      let (allowed, w') = s.check (invalid_request a request access) w in
      (
        if allowed
            then http_error status detail
            else http_error 429 "Hosted facilitator rate limit exceeded",
        w',
      )

  -- the `except` clauses around the engine; the one for the rate limit stands in `settle` only
  unfoldable pub answer_raised :
      Handler → Request → ResolvedSellerAccess → Raised → W → Response A × W
  unfolding penalize
  answer_raised handler request access (Raised.protocol_validation detail) w =
      penalize request (some access) 400 detail w
  answer_raised handler request access Raised.payload_validation w =
      penalize request (some access) 400 "Invalid x402 payload" w
  answer_raised Handler.settles request access Raised.rate_limit_exceeded w =
      (http_error 429 "Hosted facilitator rate limit exceeded", w)
  answer_raised Handler.verifies request access Raised.rate_limit_exceeded w = (server_error, w)
  answer_raised handler request access Raised.provider_unavailable w =
      (http_error 503 "Provider unavailable", w)
  answer_raised handler request access Raised.permission w =
      penalize request (some access) 403 "Seller policy denied route" w
  answer_raised handler request access Raised.lookup w =
      penalize request (some access) 400 "Unsupported payment route" w
  answer_raised handler request access Raised.other w = (server_error, w)

  abbrev pub after_engine :
      Handler → Request → ResolvedSellerAccess → EngineResult A × W → Response A × W
  after_engine handler request access (returned answer, w) = (answered answer, w)
  after_engine handler request access (raised e, w) = answer_raised handler request access e w

  -- `_enforce_control_plane_route`
  abbrev pub route_allowed : FacilitatorEnvelope → W → Bool
  route_allowed envelope w =
      s.allows (s.provider_name_for_envelope envelope)
        (network_of (Json.get "network" envelope.payment_requirements)) w

  -- the control plane and the engine
  abbrev pub run_route :
      Handler → FacilitatorEnvelope → Request → ResolvedSellerAccess → W → Response A × W
  run_route handler envelope request access w =
      if route_allowed envelope w
      then after_engine handler request access (s.engine handler envelope access w)
      else (http_error 423 "Hosted facilitator route is paused", w)

  -- `context_from_request`'s exceptions
  abbrev pub context_error : Request → Error → W → Response A × W
  context_error request (key_error _) w = penalize request none 404 "Unknown seller account" w
  context_error request (permission_error detail) w = penalize request none 401 detail w
  context_error request _ w = (server_error, w)

  abbrev pub wrong_version : Request → W → Response A × W
  wrong_version request w = penalize request none 400 "Only x402Version=2 is supported" w

  abbrev pub settle_in_context :
      FacilitatorEnvelope → Request → Result ResolvedSellerAccess → W → Response A × W
  settle_in_context envelope request (err e) w = context_error request e w
  settle_in_context envelope request (ok access) w =
      run_route Handler.settles envelope request access w

  -- the handler of /settle; the engine checks the rate limit itself
  unfoldable pub settle : FacilitatorEnvelope → Request → W → Response A × W
  unfolding penalize answer_raised
  settle envelope request w =
      if envelope.x402_version == 2
      then settle_in_context envelope request (s.resolve_access request.authorization true) w
      else wrong_version request w

  -- `_enforce_rate_limit`, then the route
  abbrev pub verify_limited :
      FacilitatorEnvelope → Request → ResolvedSellerAccess → Bool × W → Response A × W
  verify_limited envelope request access (allowed, w) =
      if allowed
      then run_route Handler.verifies envelope request access w
      else (http_error 429 "Hosted facilitator rate limit exceeded", w)

  abbrev pub verify_in_context :
      FacilitatorEnvelope → Request → Result ResolvedSellerAccess → W → Response A × W
  verify_in_context envelope request (err e) w = context_error request e w
  verify_in_context envelope request (ok access) w =
      verify_limited envelope request access
        (s.check (endpoint_request a HostedRateLimitEndpoint.verify request access) w)

  -- the handler of /verify
  unfoldable pub verify : FacilitatorEnvelope → Request → W → Response A × W
  unfolding penalize answer_raised
  verify envelope request w =
      if envelope.x402_version == 2
      then verify_in_context envelope request (s.resolve_access request.authorization true) w
      else wrong_version request w

  -- the handler of a request whose body does not parse
  unfoldable pub request_validation_handler : Request → W → Response A × W
  unfolding penalize
  request_validation_handler request w = penalize request none 400 "Invalid x402 payload" w
