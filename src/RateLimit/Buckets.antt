-- ===== src/RateLimit/Buckets.antt =====
-- Which counters a request is charged to: `RateLimitPolicy`, `RateLimitRequest` and
-- `_buckets_for_request` (src/hosted_facilitator/hosted/limits.py). A limit is a natural number;
-- `str.isalnum` of one character is a parameter.
use Prim.Native.Char.{Char, code}
use Prim.Native.String.{◌++◌}
use x402_hosted_facilitator.Common.{
  ℕ, zero, suc, String, Bool, true, false, ◌||◌, Option, none, some, List, [], ◌∷◌, nat_eq,
  string_eq, ◌==◌, if◌then◌else◌,
}

pub data HostedRateLimitEndpoint : Type 0 where
  supported verify settle invalid : HostedRateLimitEndpoint

abbrev pub endpoint_value : HostedRateLimitEndpoint → String
endpoint_value HostedRateLimitEndpoint.supported = "supported"
endpoint_value HostedRateLimitEndpoint.verify = "verify"
endpoint_value HostedRateLimitEndpoint.settle = "settle"
endpoint_value HostedRateLimitEndpoint.invalid = "invalid"

-- `endpoint != HostedRateLimitEndpoint.INVALID`
abbrev pub is_invalid : HostedRateLimitEndpoint → Bool
is_invalid HostedRateLimitEndpoint.invalid = true
is_invalid _ = false

pub record RateLimitPolicy : Type 0 where
  pub seller_requests_per_minute : Option ℕ
  pub supported_per_minute : Option ℕ
  pub verify_per_minute : Option ℕ
  pub settle_per_minute : Option ℕ
  pub invalid_requests_per_minute : Option ℕ
  pub ip_requests_per_minute : Option ℕ

abbrev pub default_rate_limit_policy : RateLimitPolicy
default_rate_limit_policy = record {
  seller_requests_per_minute = some 600;
  supported_per_minute = some 600;
  verify_per_minute = some 300;
  settle_per_minute = some 60;
  invalid_requests_per_minute = some 30;
  ip_requests_per_minute = some 1200;
}

abbrev pub limit_for : RateLimitPolicy → HostedRateLimitEndpoint → Option ℕ
limit_for p HostedRateLimitEndpoint.supported = p.supported_per_minute
limit_for p HostedRateLimitEndpoint.verify = p.verify_per_minute
limit_for p HostedRateLimitEndpoint.settle = p.settle_per_minute
limit_for p HostedRateLimitEndpoint.invalid = p.invalid_requests_per_minute

pub record RateLimitBucket : Type 0 where
  pub key : String
  pub limit : ℕ
  pub window_seconds : ℕ

pub record RateLimitRequest : Type 0 where
  pub endpoint : HostedRateLimitEndpoint
  pub seller_account_id : Option String
  pub tenant_id : Option String
  pub client_host : Option String
  pub policy : RateLimitPolicy

-- the text of an optional string that is neither None nor empty
abbrev pub truthy : Option String → Option String
truthy none = none
truthy (some value) = if value == "" then none else some value

-- `value[:n]`
unfoldable pub first_chars : ℕ → String → String
first_chars zero s = ""
first_chars (suc n) String.[] = ""
first_chars (suc n) (String.◌∷◌ c s) = String.◌∷◌ c (first_chars n s)

-- a bucket of the default window of 60 seconds, unless there is no limit
abbrev pub limited : String → Option ℕ → List RateLimitBucket → List RateLimitBucket
limited key none buckets = buckets
limited key (some limit) buckets =
    record { key = key; limit = limit; window_seconds = 60 } ∷ buckets

abbrev underscore : Char
underscore = "_"

module _ (isalnum : Char → Bool) where
  abbrev is_safe : Char → Bool
  is_safe c = isalnum c || (code c == b'_' || (code c == b'-' || code c == b'.'))

  safe_chars : String → String
  safe_chars String.[] = ""
  safe_chars (String.◌∷◌ c s) = String.◌∷◌ (if is_safe c then c else underscore) (safe_chars s)

  -- `_safe_key_part`
  unfoldable pub safe_key_part : String → String
  unfolding safe_chars first_chars
  safe_key_part value = first_chars 128 (safe_chars value)

  abbrev pub ip_bucket : Option String → Option ℕ → List RateLimitBucket → List RateLimitBucket
  ip_bucket none limit buckets = buckets
  ip_bucket (some host) limit buckets =
      limited ("ip:" ++ safe_key_part host ++ ":all") limit buckets

  abbrev pub endpoint_bucket :
      Option String
      → HostedRateLimitEndpoint
      → Option ℕ
      → List RateLimitBucket
      → List RateLimitBucket
  endpoint_bucket none endpoint limit buckets = buckets
  endpoint_bucket (some id) endpoint limit buckets =
      limited ("seller_account:" ++ safe_key_part id ++ ":" ++ endpoint_value endpoint) limit
        buckets

  abbrev pub seller_bucket :
      Option String
      → HostedRateLimitEndpoint
      → Option ℕ
      → List RateLimitBucket
      → List RateLimitBucket
  seller_bucket none endpoint limit buckets = buckets
  seller_bucket (some id) endpoint limit buckets =
      if is_invalid endpoint
      then buckets
      else limited ("seller_account:" ++ safe_key_part id ++ ":all") limit buckets

  abbrev pub invalid_bucket :
      Option String → HostedRateLimitEndpoint → Option ℕ → List RateLimitBucket
  invalid_bucket none endpoint limit = []
  invalid_bucket (some host) endpoint limit =
      if is_invalid endpoint
      then limited ("ip:" ++ safe_key_part host ++ ":invalid") limit []
      else []

  -- `_buckets_for_request`, in the order in which the source appends them
  unfoldable pub buckets_for_request : RateLimitRequest → List RateLimitBucket
  buckets_for_request request =
      let policy = request.policy in
      let host = truthy request.client_host in
      let seller = truthy request.seller_account_id in
      ip_bucket host policy.ip_requests_per_minute (
        endpoint_bucket seller request.endpoint (limit_for policy request.endpoint) (
          seller_bucket seller request.endpoint policy.seller_requests_per_minute
            (invalid_bucket host request.endpoint policy.invalid_requests_per_minute)))
