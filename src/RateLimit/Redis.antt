-- ===== src/RateLimit/Redis.antt =====
-- `RedisFixedWindowRateLimiter` (src/hosted_facilitator/hosted/limits.py): its Lua script, and the
-- call of it. The server is a parameter, the four commands that the script sends on a state of any
-- type; a script runs as one step. `str` of a whole number is a parameter; the clock is an argument.
use Prim.Native.Char.{Char}
use Prim.Native.String.{◌++◌}
use x402_hosted_facilitator.Common.{
  ℕ, ◌+◌, ◌<◌, ◌/◌, String, ◌≡◌, Bool, true, false, Option, none, some, List, [], ◌∷◌, map, ◌==◌,
  nat_eq, string_eq, if◌then◌else◌, ltb, leb,
}
use x402_hosted_facilitator.Common.Int.{ℤ, minus, int_ltb}
use x402_hosted_facilitator.RateLimit.Buckets.{
  RateLimitBucket, RateLimitRequest, buckets_for_request, safe_key_part, truthy,
}

pub record RedisCommands (S : Type 0) : Type 0 where
  -- GET, with 0 for a missing key
  pub get : String → S → ℕ
  -- TTL, with none for a negative reply (no key, or no expiry)
  pub ttl : String → S → Option ℕ
  pub incr : String → S → ℕ × S
  pub expire : String → ℕ → S → S

-- What Redis documents of the commands: INCR adds one to its key and answers the new value, and
-- EXPIRE with a positive time leaves all values.
pub record RedisLaws {S : Type 0} (redis : RedisCommands S) : Type 0 where
  pub incr_answer : (k : String) (s : S) → (redis.incr k s).0 ≡ redis.get k s + 1
  pub get_incr :
      (k j : String) (s : S)
      → redis.get j (redis.incr k s).1 ≡ (if k == j then redis.get k s + 1 else redis.get j s)
  pub get_expire :
      (k j : String) (ttl : ℕ) (s : S)
      → 0 < ttl
      → redis.get j (redis.expire k ttl s) ≡ redis.get j s

-- KEYS[i] with its two arguments
pub record KeyArguments : Type 0 where
  pub key : String
  pub limit : ℕ
  pub ttl : ℕ

-- the script's local variables in its first loop
pub record Rejection : Type 0 where
  pub rejected : Bool
  pub retry_after : ℕ
  pub limit : Option ℕ
  pub remaining : Option ℤ

-- the script's reply
pub record Reply : Type 0 where
  pub allowed : Bool
  pub retry_after : ℕ
  pub limit : ℕ
  pub remaining : ℤ

abbrev pub or_else {ℓ} : {A : Type ℓ} → Option A → A → A
or_else none a = a
or_else (some b) a = b

-- `limit == nil or bucket_limit < limit`
abbrev pub is_lower : ℕ → Option ℕ → Bool
is_lower bucket_limit none = true
is_lower bucket_limit (some limit) = ltb bucket_limit limit

-- `min_remaining == nil or bucket_remaining < min_remaining`
abbrev pub is_fewer : ℤ → Option ℤ → Bool
is_fewer bucket_remaining none = true
is_fewer bucket_remaining (some remaining) = int_ltb bucket_remaining remaining

abbrev pub refused : Rejection → Reply
refused found = record {
  allowed = false;
  retry_after = found.retry_after;
  limit = or_else found.limit 0;
  remaining = or_else found.remaining (ℤ.pos 0);
}

abbrev pub nothing_found : Rejection
nothing_found = record { rejected = false; retry_after = 0; limit = none; remaining = none }

module _ {S : Type 0} (redis : RedisCommands S) where
  abbrev pub reject : KeyArguments → S → Rejection → Rejection
  reject k s found =
      let key_ttl = or_else (redis.ttl k.key s) k.ttl in
      let lower = is_lower k.limit found.limit in
      record {
        rejected = true;
        retry_after = if ltb found.retry_after key_ttl then key_ttl else found.retry_after;
        limit = if lower then some k.limit else found.limit;
        remaining = if lower then some (minus k.limit (redis.get k.key s)) else found.remaining;
      }

  -- the first loop, which only reads
  unfoldable pub scan : List KeyArguments → S → Rejection → Rejection
  scan [] s found = found
  scan (k ∷ ks) s found =
      scan ks s (if leb k.limit (redis.get k.key s) then reject k s found else found)

  -- INCR, and EXPIRE of a key that it created
  abbrev pub incr_key : KeyArguments → S → ℕ × S
  incr_key k s =
      let (current, s') = redis.incr k.key s in
      (current, if current == 1 then redis.expire k.key k.ttl s' else s')

  -- the second loop, with `min_limit` and `min_remaining`
  unfoldable pub consume : List KeyArguments → Option ℕ → Option ℤ → S → Reply × S
  consume [] limit remaining s = (
    record {
      allowed = true;
      retry_after = 0;
      limit = or_else limit 0;
      remaining = or_else remaining (ℤ.pos 0);
    },
    s,
  )
  consume (k ∷ ks) limit remaining s =
      let (current, s') = incr_key k s in
      let bucket_remaining = minus k.limit current in
      let fewer = is_fewer bucket_remaining remaining in
      consume ks (if fewer then some k.limit else limit)
        (if fewer then some bucket_remaining else remaining) s'

  -- `_SCRIPT`
  unfoldable pub script : List KeyArguments → S → Reply × S
  unfolding scan consume
  script ks s =
      let found = scan ks s nothing_found in
      if found.rejected then (refused found, s) else consume ks none none s

-- the `RateLimitDecision` of the Redis limiter, in which `remaining` can be negative
pub record RedisDecision : Type 0 where
  pub allowed : Bool
  pub retry_after_seconds : ℕ
  pub limit : Option ℕ
  pub remaining : Option ℤ
  pub reset_after_seconds : Option ℕ
  pub reason : Option String

abbrev pub unlimited : RedisDecision
unlimited = record {
  allowed = true;
  retry_after_seconds = 0;
  limit = none;
  remaining = none;
  reset_after_seconds = none;
  reason = none;
}

abbrev pub decision_of : Reply → RedisDecision
decision_of reply = record {
  allowed = reply.allowed;
  retry_after_seconds = reply.retry_after;
  limit = if ltb 0 reply.limit then some reply.limit else none;
  remaining = if ltb 0 reply.limit then some reply.remaining else none;
  reset_after_seconds = some (if ltb 0 reply.retry_after then reply.retry_after else 60);
  reason = if reply.allowed then none else some "rate_limited";
}

abbrev pub seller_or_host_tag : (String → String) → Option String → Option String → String
seller_or_host_tag safe (some id) host = "seller_account." ++ safe id
seller_or_host_tag safe none (some host) = "ip." ++ safe host
seller_or_host_tag safe none none = "anonymous"

abbrev pub eval_script : {S : Type 0} → Reply × S → RedisDecision × S
eval_script (reply, s) = (decision_of reply, s)

module _ (isalnum : Char → Bool) where
  -- `_request_hash_tag`
  unfoldable pub request_hash_tag : RateLimitRequest → String
  request_hash_tag request =
      seller_or_host_tag (safe_key_part isalnum) (truthy request.seller_account_id)
        (truthy request.client_host)

module _ (isalnum : Char → Bool) (str : ℕ → String) (prefix : String) where
  -- `_redis_key`
  unfoldable pub redis_key : RateLimitRequest → ℕ → RateLimitBucket → String
  redis_key request now bucket =
      prefix
      ++ ":{"
      ++ request_hash_tag isalnum request
      ++ "}:"
      ++ bucket.key
      ++ ":"
      ++ str (now / bucket.window_seconds)

  abbrev pub key_arguments : RateLimitRequest → ℕ → RateLimitBucket → KeyArguments
  key_arguments request now bucket = record {
    key = redis_key request now bucket;
    limit = bucket.limit;
    ttl = bucket.window_seconds;
  }

module _ {S : Type 0} (redis : RedisCommands S) (isalnum : Char → Bool) (str : ℕ → String)
    (prefix : String) where
  abbrev pub check_buckets : RateLimitRequest → ℕ → List RateLimitBucket → S → RedisDecision × S
  check_buckets request now [] s = (unlimited, s)
  check_buckets request now (bucket ∷ buckets) s =
      eval_script
        (script redis (map (key_arguments isalnum str prefix request now) (bucket ∷ buckets)) s)

  unfoldable pub check : RateLimitRequest → ℕ → S → RedisDecision × S
  check request now = check_buckets request now (buckets_for_request isalnum request)
