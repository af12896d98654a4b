-- ===== src/RateLimit/Bounds.antt =====
-- What the fixed-window limiter enforces: counters only grow by what was admitted, and no window
-- admits more requests of a bucket than its limit.
use x402_hosted_facilitator.Common.{
  ℕ, ◌+◌, ◌<◌, ◌≤◌, ◌≡◌, refl, ap, ◌∙◌, ◌⊎◌, inl, inr, Bool, true, false, not, ◌&&◌, List, [], ◌∷◌,
  arith, max, ◌==◌, ltb, filter, bit, count_if, All, Bool-cases,
}
use x402_hosted_facilitator.Common.Dict.{get-put}
use x402_hosted_facilitator.RateLimit.{
  RateLimitDecision, longest, rejected_of, most_restrictive, CounterKey, counter_key_eq, Counters,
  counter_of, count, increment, increment_all, decisions_of, charge, check_buckets,
}
use x402_hosted_facilitator.RateLimit.Buckets.{RateLimitBucket}

-- How often the buckets charge the counter.
abbrev pub charges : CounterKey → ℕ → List RateLimitBucket → ℕ
charges key now buckets = count_if (λ bucket. counter_of bucket now == key) buckets

count-increment :
    (key : CounterKey) (now : ℕ) (bucket : RateLimitBucket) (counters : Counters)
    → count key (increment now bucket counters)
      ≡ count key counters + (bit (counter_of bucket now == key))
unfolding count increment
count-increment key now bucket counters = ground (
  arith,
  get-put (counter_of bucket now) key (count (counter_of bucket now) counters + 1) counters,
  counter_key_eq.beq_iff (counter_of bucket now) key,
)

pub count-increment_all :
    (key : CounterKey) (now : ℕ) (buckets : List RateLimitBucket) (counters : Counters)
    → count key (increment_all now buckets counters) ≡ count key counters + charges key now buckets
unfolding increment_all
count-increment_all key now [] counters = omega arith
count-increment_all key now (b ∷ bs) counters = omega (
  arith,
  count-increment_all key now bs (increment now b counters),
  count-increment key now b counters,
)

abbrev pub Rejects : RateLimitDecision → Type 0
Rejects d = d.allowed ≡ false

longest-Rejects :
    (best : RateLimitDecision) (ds : List RateLimitDecision)
    → Rejects best
    → All Rejects ds
    → Rejects (longest best ds)
unfolding longest
longest-Rejects best [] h hs = h
longest-Rejects best (d ∷ ds) h hs =
    elim (Bool-cases (ltb best.retry_after_seconds d.retry_after_seconds)) [
      | inl e ↦ rw (e, longest) (longest-Rejects d ds hs.0 hs.1)
      | inr e ↦ rw (e, longest) (longest-Rejects best ds h hs.1)
    ]

rejected_of-Rejects : (ds : List RateLimitDecision) → All Rejects (rejected_of ds)
rejected_of-Rejects [] = tt
rejected_of-Rejects (d ∷ ds) = elim (Bool-cases d.allowed) [
  | inl e ↦ rw e (rejected_of-Rejects ds)
  | inr e ↦ rw e (refl, rejected_of-Rejects ds)
]

filter-pass :
    {A : Type 0} (p : A → Bool) (x : A) (xs : List A)
    → p x ≡ true
    → filter p (x ∷ xs) ≡ x ∷ filter p xs
filter-pass p x xs h = rw h refl

most_restrictive-Rejects :
    (d : RateLimitDecision) (ds : List RateLimitDecision)
    → Rejects d
    → Rejects (most_restrictive (d ∷ ds))
unfolding most_restrictive
most_restrictive-Rejects d ds h =
    let step : rejected_of (d ∷ ds) ≡ d ∷ rejected_of ds =
      filter-pass (λ decision. not decision.allowed) d ds (ap not h) in
    rw (step, most_restrictive) (longest-Rejects d (rejected_of ds) h (rejected_of-Rejects ds))

-- The bucket has room for one more request.
abbrev pub HasRoom : ℕ → Counters → RateLimitBucket → Type 0
HasRoom now counters bucket = count (counter_of bucket now) counters < bucket.limit

no_rejection-room :
    (now : ℕ) (buckets : List RateLimitBucket) (counters : Counters)
    → rejected_of (decisions_of now false buckets counters) ≡ []
    → All (HasRoom now counters) buckets
no_rejection-room now [] counters h = tt
no_rejection-room now (b ∷ bs) counters h =
    elim (Bool-cases (ltb (count (counter_of b now) counters) b.limit)) [
      | inl e ↦ (ground arith, no_rejection-room now bs counters (rw e at h))
      | inr e ↦ absurd (cc (rw e at h))
    ]

-- no rejection, or a first one
List-cases : {A : Type 0} (xs : List A) → (xs ≡ []) ⊎ ((x : A) × (ys : List A) × (xs ≡ x ∷ ys))
List-cases [] = inl refl
List-cases (x ∷ xs) = inr (x, xs, refl)

-- A request is rejected and charged to no counter, or every bucket had room and each is charged.
charge_cases :
    (now : ℕ) (buckets : List RateLimitBucket) (counters : Counters)
    → (Rejects (charge now buckets counters).0 × ((charge now buckets counters).1 ≡ counters))
      ⊎ (All (HasRoom now counters) buckets
          × ((charge now buckets counters).1 ≡ increment_all now buckets counters))
charge_cases now buckets counters =
    elim (List-cases (rejected_of (decisions_of now false buckets counters))) [
      | inl e ↦ inr (no_rejection-room now buckets counters e, rw (e, charge) refl)
      | inr (d, ds, e) ↦
          let all : All Rejects (d ∷ ds) =
            rw e at (rejected_of-Rejects (decisions_of now false buckets counters)) in
          inl (rw (e, charge) (most_restrictive-Rejects d ds all.0), rw (e, charge) refl)
    ]

pub check_buckets_cases :
    (now : ℕ) (buckets : List RateLimitBucket) (counters : Counters)
    → (Rejects (check_buckets now buckets counters).0
        × ((check_buckets now buckets counters).1 ≡ counters))
      ⊎ (All (HasRoom now counters) buckets
          × ((key : CounterKey)
              → count key (check_buckets now buckets counters).1
                ≡ count key counters + charges key now buckets))
check_buckets_cases now [] counters = inr (tt, λ key. omega arith)
check_buckets_cases now (b ∷ bs) counters = elim (charge_cases now (b ∷ bs) counters) [
  | inl rejected ↦ inl rejected
  | inr (room, charged) ↦
      inr (room, λ key. ap (count key) charged ∙ count-increment_all key now (b ∷ bs) counters)
]

bit-and-le : (a b : Bool) → (bit (a && b)) ≤ (bit b)
bit-and-le a b = ground arith

bit-le : (b : Bool) → (bit b) ≤ 1
bit-le b = ground arith

-- A bucket of the counter allows at most `most` requests.
abbrev pub IsWithin : CounterKey → ℕ → ℕ → RateLimitBucket → Type 0
IsWithin key most now bucket = (counter_of bucket now == key) ≡ true → bucket.limit ≤ most

module _ (key : CounterKey) (most : ℕ) (now : ℕ) where
  room-below :
      (buckets : List RateLimitBucket) (counters : Counters)
      → All (HasRoom now counters) buckets
      → All (IsWithin key most now) buckets
      → 0 < charges key now buckets
      → count key counters < most
  room-below [] counters room within charged = absurd (omega arith)
  room-below (b ∷ bs) counters room within charged = elim (Bool-cases (counter_of b now == key)) [
    | inl e ↦
        let same = (counter_key_eq.beq_iff (counter_of b now) key).0 e in
        let below : count key counters < b.limit = rw same at room.0 in
        omega (arith, below, within.0 e)
    | inr e ↦ room-below bs counters room.1 within.1 (ground (arith, charged))
  ]

  abbrev pub admits : List RateLimitBucket → Counters → Bool
  admits buckets counters =
      (check_buckets now buckets counters).0.allowed && ltb 0 (charges key now buckets)

  -- An admitted request moves the counter on, from below the limit.
  pub admits-counted :
      (buckets : List RateLimitBucket) (counters : Counters)
      → All (IsWithin key most now) buckets
      → (count key counters + (bit (admits buckets counters))
          ≤ count key (check_buckets now buckets counters).1)
        × ((bit (admits buckets counters)) + count key counters ≤ max most (count key counters))
  admits-counted [] counters within = omega arith
  admits-counted (b ∷ bs) counters within = elim (charge_cases now (b ∷ bs) counters) [
    | inl (rejected, same) ↦ rw (rejected, same) (omega arith)
    | inr (room, charged) ↦
        let moved : count key (charge now (b ∷ bs) counters).1
            ≡ count key counters + charges key now (b ∷ bs) =
          ap (count key) charged ∙ count-increment_all key now (b ∷ bs) counters in
        elim (Bool-cases (ltb 0 (charges key now (b ∷ bs)))) [
          | inl e ↦
              let charged_once : 0 < charges key now (b ∷ bs) = ground arith in
              omega (
                arith,
                moved,
                bit-and-le (check_buckets now (b ∷ bs) counters).0.allowed
                    (ltb 0 (charges key now (b ∷ bs))),
                bit-le (ltb 0 (charges key now (b ∷ bs))),
                room-below (b ∷ bs) counters room within charged_once,
                charged_once,
              )
          | inr e ↦ omega (
            arith,
            moved,
            bit-and-le (check_buckets now (b ∷ bs) counters).0.allowed
                (ltb 0 (charges key now (b ∷ bs))),
            ap bit e,
          )
        ]
  ]
