-- ===== src/RateLimit.antt =====
-- The fixed-window rate limiter of src/hosted_facilitator/hosted/limits.py:
-- `InMemoryFixedWindowRateLimiter`. Its clock is an argument, in whole seconds.
pub mod Buckets
pub mod Bounds
pub mod Window
pub mod Distinct
pub mod Verdict
pub mod Redis
pub mod Minutes
pub mod Script
pub mod Shared
use Prim.Native.Char.{Char}
use x402_hosted_facilitator.Common.{
  ℕ, ◌+◌, ◌-◌, ◌/◌, String, ◌≡◌, ◌↔◌, Bool, true, false, not, ◌&&◌, Option, none, some, List, [],
  ◌∷◌, map, arith, Eq, ◌==◌, nat_eq, string_eq, if◌then◌else◌, ltb, leb, filter,
}
use x402_hosted_facilitator.Common.Dict
use x402_hosted_facilitator.Common.Dict.{Dict}
use Buckets.{RateLimitBucket, RateLimitRequest, buckets_for_request}

pub record RateLimitDecision : Type 0 where
  pub allowed : Bool
  pub retry_after_seconds : ℕ
  pub limit : Option ℕ
  pub remaining : Option ℕ
  pub reset_after_seconds : Option ℕ
  pub reason : Option String

-- RateLimitDecision(allowed=True)
abbrev pub unlimited : RateLimitDecision
unlimited = record {
  allowed = true;
  retry_after_seconds = 0;
  limit = none;
  remaining = none;
  reset_after_seconds = none;
  reason = none;
}

-- `_decision_for_bucket`; `max(remaining, 0)` is the subtraction that stops at 0
abbrev pub decision_for_bucket : RateLimitBucket → ℕ → Bool → RateLimitDecision
decision_for_bucket bucket count consumed =
    let allowed = if consumed then leb count bucket.limit else ltb count bucket.limit in
    record {
      allowed = allowed;
      retry_after_seconds = if allowed then 0 else bucket.window_seconds;
      limit = some bucket.limit;
      remaining = some (if consumed then bucket.limit - count else bucket.limit - (count + 1));
      reset_after_seconds = some bucket.window_seconds;
      reason = if allowed then none else some "rate_limited";
    }

-- `a < b` where None stands for `math.inf`
abbrev less : Option ℕ → Option ℕ → Bool
less none b = false
less (some a) none = true
less (some a) (some b) = ltb a b

abbrev same : Option ℕ → Option ℕ → Bool
same none none = true
same (some a) (some b) = a == b
same _ _ = false

-- the order of the tuples (remaining, limit)
abbrev pub tighter : RateLimitDecision → RateLimitDecision → Bool
tighter a b =
    if same a.remaining b.remaining then less a.limit b.limit else less a.remaining b.remaining

-- `max(.., key=retry_after_seconds)` and `min(.., key=(remaining, limit))`: the first extreme one
unfoldable pub longest : RateLimitDecision → List RateLimitDecision → RateLimitDecision
longest best [] = best
longest best (d ∷ ds) =
    longest (if ltb best.retry_after_seconds d.retry_after_seconds then d else best) ds

unfoldable pub tightest : RateLimitDecision → List RateLimitDecision → RateLimitDecision
tightest best [] = best
tightest best (d ∷ ds) = tightest (if tighter d best then d else best) ds

abbrev pub rejected_of : List RateLimitDecision → List RateLimitDecision
rejected_of decisions = filter (λ decision. not decision.allowed) decisions

abbrev tightest_of : List RateLimitDecision → RateLimitDecision
tightest_of [] = unlimited
tightest_of (d ∷ ds) = tightest d ds

-- `_most_restrictive`
unfoldable pub most_restrictive : List RateLimitDecision → RateLimitDecision
most_restrictive decisions = elim (rejected_of decisions) [
  | [] ↦ tightest_of decisions
  | d ∷ ds ↦ longest d ds
]

-- a key of `_counters`
pub record CounterKey : Type 0 where
  pub key : String
  pub window_id : ℕ

abbrev pub counter_key_beq : CounterKey → CounterKey → Bool
counter_key_beq a b = a.key == b.key && a.window_id == b.window_id

pub counter_key_beq_iff : (a b : CounterKey) → (counter_key_beq a b ≡ true) ↔ (a ≡ b)
counter_key_beq_iff a b = ground (arith, string_eq.beq_iff a.key b.key)

instance abbrev pub counter_key_eq : Eq CounterKey
counter_key_eq = record { beq = counter_key_beq; beq_iff = counter_key_beq_iff }

abbrev pub Counters : Type 0
Counters = Dict CounterKey ℕ

-- (bucket.key, self._window_id(bucket, now))
abbrev pub counter_of : RateLimitBucket → ℕ → CounterKey
counter_of bucket now = record { key = bucket.key; window_id = now / bucket.window_seconds }

-- `self._counters.get(key, 0)`
unfoldable pub count : CounterKey → Counters → ℕ
count key counters = elim (Dict.get key counters) [ none ↦ 0 | some n ↦ n ]

-- `_increment`
unfoldable pub increment : ℕ → RateLimitBucket → Counters → Counters
unfolding count
increment now bucket counters =
    Dict.put (counter_of bucket now) (count (counter_of bucket now) counters + 1) counters

unfoldable pub increment_all : ℕ → List RateLimitBucket → Counters → Counters
increment_all now [] counters = counters
increment_all now (bucket ∷ buckets) counters =
    increment_all now buckets (increment now bucket counters)

abbrev pub decisions_of : ℕ → Bool → List RateLimitBucket → Counters → List RateLimitDecision
decisions_of now consumed buckets counters =
    map (λ bucket. decision_for_bucket bucket (count (counter_of bucket now) counters) consumed)
      buckets

abbrev pub charge : ℕ → List RateLimitBucket → Counters → RateLimitDecision × Counters
charge now buckets counters = elim (rejected_of (decisions_of now false buckets counters)) [
  | [] ↦
      let counters' = increment_all now buckets counters in
      (most_restrictive (decisions_of now true buckets counters'), counters')
  | d ∷ ds ↦ (most_restrictive (d ∷ ds), counters)
]

abbrev pub check_buckets : ℕ → List RateLimitBucket → Counters → RateLimitDecision × Counters
check_buckets now [] counters = (unlimited, counters)
check_buckets now (bucket ∷ buckets) counters = charge now (bucket ∷ buckets) counters

module _ (isalnum : Char → Bool) where
  unfoldable pub check : RateLimitRequest → ℕ → Counters → RateLimitDecision × Counters
  check request now = check_buckets now (buckets_for_request isalnum request)
