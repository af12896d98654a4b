-- ===== src/RateLimit/Window.antt =====
-- Sequences of requests that `InMemoryFixedWindowRateLimiter.check` decides, each at its time.
use Prim.Native.Char.{Char}
use x402_hosted_facilitator.Common.{
  ℕ, ◌+◌, ◌≤◌, ◌≡◌, ◌⊎◌, Bool, ◌&&◌, List, [], ◌∷◌, arith, max, bit, All, ltb,
}
use x402_hosted_facilitator.RateLimit.{CounterKey, counter_key_eq, Counters, count, check}
use x402_hosted_facilitator.RateLimit.Buckets.{RateLimitRequest, buckets_for_request}
use x402_hosted_facilitator.RateLimit.Bounds.{
  IsWithin, HasRoom, charges, admits-counted, check_buckets_cases, Rejects,
}

-- Requests with the seconds at which they come.
abbrev pub Arrivals : Type 0
Arrivals = List (RateLimitRequest × ℕ)

module _ (isalnum : Char → Bool) where
  unfoldable pub run : Arrivals → Counters → Counters
  run [] counters = counters
  run ((request, now) ∷ rest) counters = run rest (check isalnum request now counters).1

  -- Whether the request is allowed and is one of those that the counter counts.
  abbrev pub is_admitted : CounterKey → RateLimitRequest → ℕ → Counters → Bool
  is_admitted key request now counters =
      (check isalnum request now counters).0.allowed
      && ltb 0 (charges key now (buckets_for_request isalnum request))

  unfoldable pub admitted_of : CounterKey → Arrivals → Counters → ℕ
  admitted_of key [] counters = 0
  admitted_of key ((request, now) ∷ rest) counters =
      (bit (is_admitted key request now counters))
      + admitted_of key rest (check isalnum request now counters).1

  -- Every bucket of the counter that a request brings has a limit of at most `most`.
  abbrev pub AllWithin : CounterKey → ℕ → Arrivals → Type 0
  AllWithin key most arrivals =
      All
        (λ (a : RateLimitRequest × ℕ).
          All (IsWithin key most a.1) (buckets_for_request isalnum a.0))
        arrivals

  admitted_of-count :
      (key : CounterKey) (most : ℕ) (arrivals : Arrivals) (counters : Counters)
      → AllWithin key most arrivals
      → admitted_of key arrivals counters + count key counters ≤ max most (count key counters)
  unfolding admitted_of check
  admitted_of-count key most [] counters within = omega arith
  admitted_of-count key most ((request, now) ∷ rest) counters within =
      let step =
        admits-counted key most now (buckets_for_request isalnum request) counters within.0 in
      omega (
        arith,
        step.0,
        step.1,
        admitted_of-count key most rest (check isalnum request now counters).1 within.1,
      )

  -- From empty counters, in one window of one bucket key, no sequence of requests is admitted more
  -- often than `most`, where no request of the sequence brings a larger limit for that key.
  pub admitted_le_limit :
      (key : CounterKey) (most : ℕ) (arrivals : Arrivals)
      → AllWithin key most arrivals
      → admitted_of key arrivals [] ≤ most
  unfolding count
  admitted_le_limit key most arrivals within =
      omega (arith, admitted_of-count key most arrivals [] within)

  -- A check rejects and consumes nothing, or finds room in every bucket of the request and moves
  -- each counter on by the buckets that charge it.
  pub check_cases :
      (request : RateLimitRequest) (now : ℕ) (counters : Counters)
      → (Rejects (check isalnum request now counters).0
          × ((check isalnum request now counters).1 ≡ counters))
        ⊎ (All (HasRoom now counters) (buckets_for_request isalnum request)
            × ((key : CounterKey)
                → count key (check isalnum request now counters).1
                  ≡ count key counters + charges key now (buckets_for_request isalnum request)))
  unfolding check
  check_cases request now counters =
      check_buckets_cases now (buckets_for_request isalnum request) counters
