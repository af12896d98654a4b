-- ===== src/RateLimit/Verdict.antt =====
-- When the fixed-window limiter admits a request.
use Prim.Native.Char.{Char}
use x402_hosted_facilitator.Common.{
  ℕ, ◌≡◌, ◌↔◌, refl, sym, ap, inl, inr, Bool, true, false, List, [], ◌∷◌, arith, ◌==◌, string_eq,
  ltb, All, Bool-cases, eq_false, eq_self,
}
use x402_hosted_facilitator.RateLimit.{
  RateLimitDecision, tightest, tighter, rejected_of, most_restrictive, counter_key_eq, Counters,
  counter_of, count, increment_all, decisions_of, charge, check_buckets, check,
}
use x402_hosted_facilitator.RateLimit.Buckets.{
  RateLimitBucket, RateLimitRequest, buckets_for_request,
}
use x402_hosted_facilitator.RateLimit.Bounds.{
  charges, HasRoom, check_buckets_cases, count-increment_all,
}
use x402_hosted_facilitator.RateLimit.Distinct.{
  Fresh, DistinctKeys, buckets_for_request-DistinctKeys,
}

module _ (now : ℕ) where
  counter_of-ne :
      (b c : RateLimitBucket)
      → ((b.key ≡ c.key) → ⊥)
      → (counter_of b now == counter_of c now) ≡ false
  counter_of-ne b c h = eq_false (counter_of b now) (counter_of c now) (λ e. h (ap (λ k. k.key) e))

  charges-Fresh :
      (b : RateLimitBucket) (bs : List RateLimitBucket)
      → Fresh b.key bs
      → charges (counter_of b now) now bs ≡ 0
  charges-Fresh b [] h = refl
  charges-Fresh b (c ∷ cs) h = rw (counter_of-ne c b h.0) (omega (arith, charges-Fresh b cs h.1))

  abbrev ChargedOnce : List RateLimitBucket → RateLimitBucket → Type 0
  ChargedOnce bs b = charges (counter_of b now) now bs ≡ 1

  charged_still :
      (b : RateLimitBucket) (bs cs : List RateLimitBucket)
      → Fresh b.key cs
      → All (ChargedOnce bs) cs
      → All (ChargedOnce (b ∷ bs)) cs
  charged_still b bs [] fresh h = tt
  charged_still b bs (c ∷ cs) fresh h = (
    rw (counter_of-ne b c (λ e. fresh.0 (sym e))) (omega (arith, h.0)),
    charged_still b bs cs fresh.1 h.1,
  )

  charged_once : (bs : List RateLimitBucket) → DistinctKeys bs → All (ChargedOnce bs) bs
  charged_once [] h = tt
  charged_once (b ∷ bs) h = (
    rw (eq_self (counter_of b now)) (omega (arith, charges-Fresh b bs h.0)),
    charged_still b bs bs h.0 (charged_once bs h.1),
  )

  -- where each bucket has room, none rejects before it is charged
  nothing_rejected_before :
      (bs : List RateLimitBucket) (counters : Counters)
      → All (HasRoom now counters) bs
      → rejected_of (decisions_of now false bs counters) ≡ []
  nothing_rejected_before [] counters h = refl
  nothing_rejected_before (b ∷ bs) counters h =
      let room : ltb (count (counter_of b now) counters) b.limit ≡ true = ground (arith, h.0) in
      rw room (nothing_rejected_before bs counters h.1)

  abbrev Allows : RateLimitDecision → Type 0
  Allows d = d.allowed ≡ true

  allowed_after :
      (bs cs : List RateLimitBucket) (counters : Counters)
      → All (HasRoom now counters) cs
      → All (ChargedOnce bs) cs
      → All Allows (decisions_of now true cs (increment_all now bs counters))
  allowed_after bs [] counters room once = tt
  allowed_after bs (c ∷ cs) counters room once =
      let moved = count-increment_all (counter_of c now) now bs counters in
      (ground (arith, moved, once.0, room.0), allowed_after bs cs counters room.1 once.1)

  nothing_rejected : (ds : List RateLimitDecision) → All Allows ds → rejected_of ds ≡ []
  nothing_rejected [] h = refl
  nothing_rejected (d ∷ ds) h = rw h.0 (nothing_rejected ds h.1)

  tightest-Allows :
      (best : RateLimitDecision) (ds : List RateLimitDecision)
      → Allows best
      → All Allows ds
      → Allows (tightest best ds)
  unfolding tightest
  tightest-Allows best [] h hs = h
  tightest-Allows best (d ∷ ds) h hs = elim (Bool-cases (tighter d best)) [
    | inl e ↦ rw (e, tightest) (tightest-Allows d ds hs.0 hs.1)
    | inr e ↦ rw (e, tightest) (tightest-Allows best ds h hs.1)
  ]

  most_restrictive-Allows :
      (d : RateLimitDecision) (ds : List RateLimitDecision)
      → All Allows (d ∷ ds)
      → Allows (most_restrictive (d ∷ ds))
  unfolding most_restrictive
  most_restrictive-Allows d ds h =
      rw (nothing_rejected (d ∷ ds) h, most_restrictive) (tightest-Allows d ds h.0 h.1)

  room-Allows :
      (bs : List RateLimitBucket) (counters : Counters)
      → DistinctKeys bs
      → All (HasRoom now counters) bs
      → Allows (check_buckets now bs counters).0
  room-Allows [] counters distinct room = refl
  room-Allows (b ∷ bs) counters distinct room =
      rw (nothing_rejected_before (b ∷ bs) counters room, charge)
        (most_restrictive-Allows _ _
          (allowed_after (b ∷ bs) (b ∷ bs) counters room (charged_once (b ∷ bs) distinct)))

  pub check_buckets-allows_iff :
      (bs : List RateLimitBucket) (counters : Counters)
      → DistinctKeys bs
      → ((check_buckets now bs counters).0.allowed ≡ true) ↔ All (HasRoom now counters) bs
  check_buckets-allows_iff bs counters distinct = (
    (λ h. elim (check_buckets_cases now bs counters) [
      | inl (rejected, same) ↦ absurd (cc)
      | inr (room, charged) ↦ room
    ]),
    room-Allows bs counters distinct,
  )

module _ (isalnum : Char → Bool) where
  -- A request is allowed exactly if each of its buckets has room.
  pub check-allows_iff :
      (request : RateLimitRequest) (now : ℕ) (counters : Counters)
      → ((check isalnum request now counters).0.allowed ≡ true)
        ↔ All (HasRoom now counters) (buckets_for_request isalnum request)
  unfolding check
  check-allows_iff request now counters =
      check_buckets-allows_iff now (buckets_for_request isalnum request) counters
        (buckets_for_request-DistinctKeys isalnum request)
