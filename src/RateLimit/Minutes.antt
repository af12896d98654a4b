-- ===== src/RateLimit/Minutes.antt =====
-- The windows of the buckets of a request (src/hosted_facilitator/hosted/limits.py).
use Prim.Native.Char.{Char}
use x402_hosted_facilitator.Common.{
  ℕ, String, ◌≡◌, refl, inl, inr, Option, none, some, List, [], All, Bool, Bool-cases,
}
use x402_hosted_facilitator.RateLimit.Buckets.{
  RateLimitBucket, RateLimitRequest, buckets_for_request, limited, ip_bucket, seller_bucket,
  endpoint_bucket, invalid_bucket, is_invalid, limit_for, truthy, HostedRateLimitEndpoint,
}

-- The buckets of a request have the window of 60 seconds.
abbrev pub IsMinute : RateLimitBucket → Type 0
IsMinute b = b.window_seconds ≡ 60

limited-IsMinute :
    (key : String) (l : Option ℕ) (bs : List RateLimitBucket)
    → All IsMinute bs
    → All IsMinute (limited key l bs)
limited-IsMinute key none bs h = h
limited-IsMinute key (some l) bs h = (refl, h)

module _ (isalnum : Char → Bool) where
  ip-IsMinute :
      (host : Option String) (l : Option ℕ) (bs : List RateLimitBucket)
      → All IsMinute bs
      → All IsMinute (ip_bucket isalnum host l bs)
  ip-IsMinute none l bs h = h
  ip-IsMinute (some host) l bs h = limited-IsMinute _ l bs h

  endpoint-IsMinute :
      (seller : Option String) (e : HostedRateLimitEndpoint) (l : Option ℕ)
      (bs : List RateLimitBucket)
      → All IsMinute bs
      → All IsMinute (endpoint_bucket isalnum seller e l bs)
  endpoint-IsMinute none e l bs h = h
  endpoint-IsMinute (some id) e l bs h = limited-IsMinute _ l bs h

  seller-IsMinute :
      (seller : Option String) (e : HostedRateLimitEndpoint) (l : Option ℕ)
      (bs : List RateLimitBucket)
      → All IsMinute bs
      → All IsMinute (seller_bucket isalnum seller e l bs)
  seller-IsMinute none e l bs h = h
  seller-IsMinute (some id) e l bs h = elim (Bool-cases (is_invalid e)) [
    | inl i ↦ rw i h
    | inr i ↦ rw i (limited-IsMinute _ l bs h)
  ]

  invalid-IsMinute :
      (host : Option String) (e : HostedRateLimitEndpoint) (l : Option ℕ)
      → All IsMinute (invalid_bucket isalnum host e l)
  invalid-IsMinute none e l = tt
  invalid-IsMinute (some host) e l = elim (Bool-cases (is_invalid e)) [
    | inl i ↦ rw i (limited-IsMinute _ l [] tt)
    | inr i ↦ rw i tt
  ]

  pub buckets_for_request-IsMinute :
      (request : RateLimitRequest) → All IsMinute (buckets_for_request isalnum request)
  unfolding buckets_for_request
  buckets_for_request-IsMinute request =
      let host = truthy request.client_host in
      let seller = truthy request.seller_account_id in
      let endpoint = request.endpoint in
      let policy = request.policy in
      let invalid = invalid_bucket isalnum host endpoint policy.invalid_requests_per_minute in
      let sellers =
        seller_bucket isalnum seller endpoint policy.seller_requests_per_minute invalid in
      let endpoints = endpoint_bucket isalnum seller endpoint (limit_for policy endpoint) sellers in
      ip-IsMinute host policy.ip_requests_per_minute endpoints (
        endpoint-IsMinute seller endpoint (limit_for policy endpoint) sellers (
          seller-IsMinute seller endpoint policy.seller_requests_per_minute invalid
            (invalid-IsMinute host endpoint policy.invalid_requests_per_minute)))
