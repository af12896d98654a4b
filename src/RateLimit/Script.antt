-- ===== src/RateLimit/Script.antt =====
-- What the Lua script of the Redis limiter does to the server's counters.
use x402_hosted_facilitator.Common.{
  ℕ, ◌+◌, ◌<◌, String, ◌≡◌, ◌↔◌, ◌⊎◌, refl, inl, inr, true, false, Option, none, List, [], ◌∷◌,
  arith, ◌==◌, nat_eq, string_eq, leb, bit, count_if, All, Bool-cases,
}
use x402_hosted_facilitator.Common.Int.{ℤ}
use x402_hosted_facilitator.RateLimit.Redis.{
  RedisCommands, RedisLaws, KeyArguments, Rejection, reject, scan, incr_key, consume, script,
  nothing_found,
}

module _ {S : Type 0} (redis : RedisCommands S) (laws : RedisLaws redis) where
  abbrev pub Room : S → KeyArguments → Type 0
  Room s k = redis.get k.key s < k.limit

  full : (k : KeyArguments) (s : S) → leb k.limit (redis.get k.key s) ≡ true → Room s k → ⊥
  full k s h room = ground (arith, h, room)

  not_full : (k : KeyArguments) (s : S) → leb k.limit (redis.get k.key s) ≡ false → Room s k
  not_full k s h = ground (arith, h)

  -- The first loop rejects unless it began without a rejection and every key has room.
  scan-rejected :
      (ks : List KeyArguments) (s : S) (found : Rejection)
      → ((scan redis ks s found).rejected ≡ false) ↔ ((found.rejected ≡ false) × All (Room s) ks)
  unfolding scan
  scan-rejected [] s found = ((λ h. (h, tt)), (λ h. h.0))
  scan-rejected (k ∷ ks) s found = elim (Bool-cases (leb k.limit (redis.get k.key s))) [
    | inl e ↦
        rw (e, scan)
          (let rest = scan-rejected ks s (reject redis k s found) in
            ((λ h. absurd (cc ((rest.0 h).0))), (λ h. absurd (full k s e h.1.0))))
    | inr e ↦
        rw (e, scan)
          (let rest = scan-rejected ks s found in
            ((λ h. ((rest.0 h).0, (not_full k s e, (rest.0 h).1))), (λ h. rest.1 (h.0, h.1.1))))
  ]

  -- How often the keys have the name.
  abbrev pub named : String → List KeyArguments → ℕ
  named key = count_if (λ (k : KeyArguments). k.key == key)

  get-incr_key :
      (k : KeyArguments) (key : String) (s : S)
      → 0 < k.ttl
      → redis.get key (incr_key redis k s).1 ≡ redis.get key s + (bit (k.key == key))
  get-incr_key k key s h =
      let added = laws.get_incr k.key key s in
      let same = string_eq.beq_iff k.key key in
      let kept = laws.get_expire k.key key k.ttl (redis.incr k.key s).1 h in
      elim (Bool-cases ((redis.incr k.key s).0 == 1)) [
        | inl e ↦ rw e (ground (arith, added, same, kept))
        | inr e ↦ rw e (ground (arith, added, same))
      ]

  abbrev pub Lasting : KeyArguments → Type 0
  Lasting k = 0 < k.ttl

  get-consume :
      (ks : List KeyArguments) (limit : Option ℕ) (remaining : Option ℤ) (key : String) (s : S)
      → All Lasting ks
      → redis.get key (consume redis ks limit remaining s).1 ≡ redis.get key s + named key ks
  unfolding consume
  get-consume [] limit remaining key s h = omega arith
  get-consume (k ∷ ks) limit remaining key s h =
      omega (arith, get-consume ks _ _ key (incr_key redis k s).1 h.1, get-incr_key k key s h.0)

  consume-allowed :
      (ks : List KeyArguments) (limit : Option ℕ) (remaining : Option ℤ) (s : S)
      → (consume redis ks limit remaining s).0.allowed ≡ true
  unfolding consume
  consume-allowed [] limit remaining s = refl
  consume-allowed (k ∷ ks) limit remaining s = consume-allowed ks _ _ (incr_key redis k s).1

  -- The script rejects and changes nothing, since some key is at its limit; or every key has room, and
  -- each value goes up by the number of its keys.
  pub script_cases :
      (ks : List KeyArguments) (s : S)
      → All Lasting ks
      → (((script redis ks s).0.allowed ≡ false)
          × ((script redis ks s).1 ≡ s)
          × (All (Room s) ks → ⊥))
        ⊎ (((script redis ks s).0.allowed ≡ true)
            × All (Room s) ks
            × ((key : String)
                → redis.get key (script redis ks s).1 ≡ redis.get key s + named key ks))
  unfolding script
  script_cases ks s h = elim (Bool-cases (scan redis ks s nothing_found).rejected) [
    | inl e ↦
        rw e (inl (refl, refl, λ room. cc ((scan-rejected ks s nothing_found).1 (refl, room))))
    | inr e ↦ rw e (
        inr (
          consume-allowed ks none none s,
          ((scan-rejected ks s nothing_found).0 e).1,
          (λ key. get-consume ks none none key s h),
        ))
  ]
