-- ===== src/RateLimit/Shared.antt =====
-- The Redis limiter decides as the in-memory limiter does, on counters that agree.
use Prim.Native.Char.{Char}
use Prim.Native.String.{◌++◌}
use text.Mathlib.TextLemmas.{append_cancel_left, append_cancel_right}
use x402_hosted_facilitator.Common.{
  ℕ, ◌+◌, ◌/◌, String, ◌≡◌, ◌↔◌, refl, sym, ap, ◌∙◌, inl, inr, Bool, List, [], ◌∷◌, map, arith,
  ◌==◌, nat_eq, string_eq, Eq, eq_false, ne_of_eq_false, All, Bool-cases,
}
use x402_hosted_facilitator.RateLimit
use x402_hosted_facilitator.RateLimit.{counter_key_eq, counter_of, count, Counters}
use x402_hosted_facilitator.RateLimit.Buckets.{
  RateLimitBucket, RateLimitRequest, buckets_for_request,
}
use x402_hosted_facilitator.RateLimit.Bounds.{HasRoom, charges, check_buckets_cases}
use x402_hosted_facilitator.RateLimit.Distinct.{DistinctKeys, buckets_for_request-DistinctKeys}
use x402_hosted_facilitator.RateLimit.Minutes.{IsMinute, buckets_for_request-IsMinute}
use x402_hosted_facilitator.RateLimit.Verdict.{check_buckets-allows_iff}
use x402_hosted_facilitator.RateLimit.Script.{Room, named, Lasting, script_cases}
use x402_hosted_facilitator.RateLimit.Redis
use x402_hosted_facilitator.RateLimit.Redis.{
  RedisCommands, RedisLaws, KeyArguments, Rejection, reject, scan, incr_key, consume, script,
  nothing_found, redis_key, request_hash_tag, key_arguments,
}

-- Two tests of equations that imply each other.
same_beq :
    {A B : Type 0} ⦃e : Eq A⦄ ⦃f : Eq B⦄ (a b : A) (x y : B)
    → (a ≡ b → x ≡ y)
    → (x ≡ y → a ≡ b)
    → (a == b) ≡ (x == y)
same_beq ⦃e⦄ ⦃f⦄ a b x y h g = elim (Bool-cases (a == b)) [
  | inl p ↦ p ∙ sym ((f.beq_iff x y).1 (h ((e.beq_iff a b).0 p)))
  | inr p ↦ p ∙ sym (eq_false x y (λ q. ne_of_eq_false a b p (g q)))
]

module _ {S : Type 0} (redis : RedisCommands S) (laws : RedisLaws redis) (isalnum : Char → Bool)
    (str : ℕ → String) (prefix : String) where
  -- The server's counter of each bucket is the in-memory one.
  abbrev pub Agrees : RateLimitRequest → ℕ → Counters → S → List RateLimitBucket → Type 0
  Agrees request now counters s = All (λ b.
      redis.get (redis_key isalnum str prefix request now b) s ≡ count (counter_of b now) counters)

  module _ (request : RateLimitRequest) (now : ℕ) where
    abbrev bucket_key : RateLimitBucket → String
    bucket_key = redis_key isalnum str prefix request now

    abbrev arguments_of : List RateLimitBucket → List KeyArguments
    arguments_of = map (key_arguments isalnum str prefix request now)

    same_test :
        (b c : RateLimitBucket)
        → IsMinute b
        → IsMinute c
        → (bucket_key b == bucket_key c) ≡ (counter_of b now == counter_of c now)
    unfolding redis_key
    same_test b c h g =
        let tag = request_hash_tag isalnum request in
        let window = ":" ++ str (now / 60) in
        let keys = λ (e : bucket_key b ≡ bucket_key c).
          let whole : b.key ++ ":" ++ str (now / b.window_seconds)
              ≡ c.key ++ ":" ++ str (now / c.window_seconds) =
            append_cancel_left "}:" _ _ (
              append_cancel_left tag _ _
                (append_cancel_left ":{" _ _ (append_cancel_left prefix _ _ e))) in
          let minute : b.key ++ window ≡ c.key ++ window = rw (h, g) at whole in
          append_cancel_right b.key c.key window minute in
        same_beq (bucket_key b) (bucket_key c) (counter_of b now) (counter_of c now)
          (λ e. cc (keys e, h, g))
          (λ e. let same : b.key ≡ c.key = ap (λ k. k.key) e in rw (same, h, g) refl)

    named-charges :
        (b : RateLimitBucket) (bs : List RateLimitBucket)
        → IsMinute b
        → All IsMinute bs
        → named redis laws (bucket_key b) (arguments_of bs) ≡ charges (counter_of b now) now bs
    named-charges b [] h hs = refl
    named-charges b (c ∷ cs) h hs =
        rw (same_test c b hs.0 h) (omega (arith, named-charges b cs h hs.1))

    Lasting-arguments :
        (bs : List RateLimitBucket) → All IsMinute bs → All (Lasting redis laws) (arguments_of bs)
    Lasting-arguments [] h = tt
    Lasting-arguments (b ∷ bs) h = (omega (arith, h.0), Lasting-arguments bs h.1)

    arguments-Room :
        (bs : List RateLimitBucket) (counters : Counters) (s : S)
        → Agrees request now counters s bs
        → All (Room redis laws s) (arguments_of bs) ↔ All (HasRoom now counters) bs
    arguments-Room [] counters s h = ((λ r. tt), (λ r. tt))
    arguments-Room (b ∷ bs) counters s h =
        let rest = arguments-Room bs counters s h.1 in
        ((λ r. (omega (arith, r.0, h.0), rest.0 r.1)), (λ r. (omega (arith, r.0, h.0), rest.1 r.1)))

    agrees_after :
        (bs cs : List RateLimitBucket) (counters after : Counters) (s t : S)
        → All IsMinute bs
        → All IsMinute cs
        → Agrees request now counters s cs
        → ((b : RateLimitBucket)
            → count (counter_of b now) after
              ≡ count (counter_of b now) counters + charges (counter_of b now) now bs)
        → ((key : String)
            → redis.get key t ≡ redis.get key s + named redis laws key (arguments_of bs))
        → Agrees request now after t cs
    agrees_after bs [] counters after s t mb mc h moved got = tt
    agrees_after bs (c ∷ cs) counters after s t mb mc h moved got = (
      omega (arith, h.0, moved c, got (bucket_key c), named-charges c bs mc.0 mb),
      agrees_after bs cs counters after s t mb mc.1 h.1 moved got,
    )

    agrees_kept :
        (bs : List RateLimitBucket) (counters after : Counters) (s t : S)
        → after ≡ counters
        → t ≡ s
        → Agrees request now counters s bs
        → Agrees request now after t bs
    agrees_kept bs counters after s t kept same h = rw (kept, same) h

    abbrev Alike : List RateLimitBucket → Counters → S → Type 0
    Alike bs counters s =
        ((Redis.check_buckets redis isalnum str prefix request now bs s).0.allowed
          ≡ (RateLimit.check_buckets now bs counters).0.allowed)
        × Agrees request now (RateLimit.check_buckets now bs counters).1
            (Redis.check_buckets redis isalnum str prefix request now bs s).1 bs

    bucket-Alike :
        (b : RateLimitBucket) (bs : List RateLimitBucket) (counters : Counters) (s : S)
        → All IsMinute (b ∷ bs)
        → DistinctKeys (b ∷ bs)
        → Agrees request now counters s (b ∷ bs)
        → Alike (b ∷ bs) counters s
    bucket-Alike b bs counters s minute distinct h =
        let rooms = arguments-Room (b ∷ bs) counters s h in
        let memory = check_buckets-allows_iff now (b ∷ bs) counters distinct in
        elim (script_cases redis laws (arguments_of (b ∷ bs)) s
          (Lasting-arguments (b ∷ bs) minute)) [
            | inl (refused, same, lacking) ↦ elim (check_buckets_cases now (b ∷ bs) counters) [
              | inl (rejected, kept) ↦
                  (refused ∙ sym rejected, agrees_kept (b ∷ bs) counters _ s _ kept same h)
              | inr (room, moved) ↦ absurd (lacking (rooms.1 room))
            ]
            | inr (allowed, room, got) ↦ elim (check_buckets_cases now (b ∷ bs) counters) [
              | inl (rejected, kept) ↦ absurd (cc (memory.1 (rooms.0 room)))
              | inr (_, moved) ↦ (
                allowed ∙ sym (memory.1 (rooms.0 room)),
                agrees_after (b ∷ bs) (b ∷ bs) counters _ s _ minute minute h
                    (λ c. moved (counter_of c now)) got,
              )
            ]
          ]

    buckets-Alike :
        (bs : List RateLimitBucket) (counters : Counters) (s : S)
        → All IsMinute bs
        → DistinctKeys bs
        → Agrees request now counters s bs
        → Alike bs counters s
    buckets-Alike [] counters s minute distinct h = (refl, tt)
    buckets-Alike (b ∷ bs) counters s minute distinct h =
        bucket-Alike b bs counters s minute distinct h

  -- Where the server's counter of each bucket of the request is the in-memory one, the Redis limiter
  -- and the in-memory limiter both allow the request or both reject it, and the counters of its
  -- buckets agree afterwards.
  pub check-SameVerdict :
      (request : RateLimitRequest) (now : ℕ) (counters : Counters) (s : S)
      → Agrees request now counters s (buckets_for_request isalnum request)
      → ((Redis.check redis isalnum str prefix request now s).0.allowed
          ≡ (RateLimit.check isalnum request now counters).0.allowed)
        × Agrees request now
            (RateLimit.check isalnum request now counters).1
            (Redis.check redis isalnum str prefix request now s).1
            (buckets_for_request isalnum request)
  unfolding Redis.check RateLimit.check
  check-SameVerdict request now counters s h =
      buckets-Alike request now (buckets_for_request isalnum request) counters s
        (buckets_for_request-IsMinute isalnum request)
        (buckets_for_request-DistinctKeys isalnum request) h
