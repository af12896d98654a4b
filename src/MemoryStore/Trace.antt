-- ===== src/MemoryStore/Trace.antt =====
-- Sequences of calls of `InMemorySettlementStore`: the invariant at every point, and a payment
-- that is granted to one caller is never granted again, under any payment profile.
use x402_hosted_facilitator.Common.{
  ℕ, nat_eq, ◌+◌, ◌≤◌, ◌<◌, ◌≡◌, String, refl, inl, inr, Bool, true, false, ◌&&◌, Option, some,
  List, [], ◌∷◌, arith, Result, ok, ◌==◌, if◌then◌else◌, Option-cases, Bool-cases, is_some,
}
use x402_hosted_facilitator.Common.Dict
use x402_hosted_facilitator.Common.Dict.{Dict, get-put}
use x402_hosted_facilitator.Settlement.{ClaimRequest}
use x402_hosted_facilitator.Settlement.Status.{SettlementClaim, SettlementAttemptStatus}
use x402_hosted_facilitator.Settlement.Identity.{
  RecordKey, ReplayKey, record_key_eq, replay_key_eq, requested_key, requested_replay_key,
}
use x402_hosted_facilitator.MemoryStore.{
  AttemptEntry, InMemorySettlementStore, init, claim_for_settlement, start_settle_attempt,
  finish_settle_attempt, mutate, mark_settled, mark_submitted, mark_settle_failed, mark_unknown,
}
use x402_hosted_facilitator.MemoryStore.Invariant.{
  IsWellFormed, init-IsWellFormed, claim-IsWellFormed, mutate-IsWellFormed,
}
use x402_hosted_facilitator.MemoryStore.Claims.{claim_cases, not_claimed}

-- The calls that change the store.
pub data Call : Type 0 where
  claim : ClaimRequest → ℕ → Call
  start : Option ℕ → String → ℕ → Call
  finish : ℕ → SettlementAttemptStatus → Option String → Option String → ℕ → Call
  settle submit : RecordKey → Option String → Option String → ℕ → Call
  fail lose : RecordKey → Option String → ℕ → Call

module _ (sha256_hexdigest : String → String) where
  unfoldable pub apply : Call → InMemorySettlementStore → InMemorySettlementStore
  apply (claim q now) s = (claim_for_settlement sha256_hexdigest q now s).1
  apply (start id trace_id now) s = (start_settle_attempt id trace_id now s).1
  apply (finish id status transaction reason now) s =
      finish_settle_attempt id status transaction reason now s
  apply (settle k transaction payer now) s = mark_settled k transaction payer now s
  apply (submit k transaction payer now) s = mark_submitted k transaction payer now s
  apply (fail k reason now) s = mark_settle_failed k reason now s
  apply (lose k reason now) s = mark_unknown k reason now s

  unfoldable pub run : List Call → InMemorySettlementStore → InMemorySettlementStore
  run [] s = s
  run (c ∷ cs) s = run cs (apply c s)

  -- An entry under the next id, once that id is handed out.
  started_attempted :
      (next : ℕ) (new : AttemptEntry) (entries : Dict ℕ AttemptEntry)
      → ((id : ℕ) (a : AttemptEntry) → Dict.get id entries ≡ some a → id < next)
      → (id : ℕ) (a : AttemptEntry) → Dict.get id (Dict.put next new entries) ≡ some a
      → id < next + 1
  started_attempted next new entries handed_out id a h = elim (Bool-cases (next == id)) [
    | inl e ↦ ground arith
    | inr e ↦
        let old : Dict.get id entries ≡ some a = ground (arith, get-put next id new entries) in
        omega (arith, handed_out id a old)
  ]

  -- An entry that is written under an id that was handed out.
  finished_attempted :
      (next done : ℕ) (old new : AttemptEntry) (entries : Dict ℕ AttemptEntry)
      → ((id : ℕ) (a : AttemptEntry) → Dict.get id entries ≡ some a → id < next)
      → Dict.get done entries ≡ some old
      → (id : ℕ) (a : AttemptEntry) → Dict.get id (Dict.put done new entries) ≡ some a
      → id < next
  finished_attempted next done old new entries handed_out found id a h =
      elim (Bool-cases (done == id)) [
        | inl e ↦
            let same : done ≡ id = ground arith in omega (arith, same, handed_out done old found)
        | inr e ↦ handed_out id a (ground (arith, get-put done id new entries))
      ]

  apply-IsWellFormed :
      (c : Call) (s : InMemorySettlementStore) → IsWellFormed s → IsWellFormed (apply c s)
  unfolding apply start_settle_attempt finish_settle_attempt mark_settled mark_submitted
      mark_settle_failed mark_unknown
  apply-IsWellFormed (claim q now) s w = claim-IsWellFormed sha256_hexdigest q now s w
  apply-IsWellFormed (start id trace_id now) s w = record {
    keyed = w.keyed;
    indexed = w.indexed;
    index_sound = w.index_sound;
    numbered = w.numbered;
    distinct_ids = w.distinct_ids;
    attempted = started_attempted s.next_attempt_id _ s.attempts w.attempted;
  }
  apply-IsWellFormed (finish id status transaction reason now) s w =
      elim (Option-cases (Dict.get id s.attempts)) [
        | inl e ↦ rw (e, finish_settle_attempt) w
        | inr (a, e) ↦
            rw (e, finish_settle_attempt)
              (record {
                keyed = w.keyed;
                indexed = w.indexed;
                index_sound = w.index_sound;
                numbered = w.numbered;
                distinct_ids = w.distinct_ids;
                attempted = finished_attempted s.next_attempt_id id a _ s.attempts w.attempted e;
              })
      ]
  apply-IsWellFormed (settle k transaction payer now) s w =
      mutate-IsWellFormed k _ s (λ r. (refl, refl, refl)) w
  apply-IsWellFormed (submit k transaction payer now) s w =
      mutate-IsWellFormed k _ s (λ r. (refl, refl, refl)) w
  apply-IsWellFormed (fail k reason now) s w = mutate-IsWellFormed k _ s (λ r. (refl, refl, refl)) w
  apply-IsWellFormed (lose k reason now) s w = mutate-IsWellFormed k _ s (λ r. (refl, refl, refl)) w

  -- Any sequence of calls keeps a well-formed store well-formed: its records and its
  -- provider-fingerprint index agree, the ids of its records are distinct and below the counter of
  -- records, and those of its attempts are below the counter of attempts.
  pub run-IsWellFormed :
      (cs : List Call) (s : InMemorySettlementStore) → IsWellFormed s → IsWellFormed (run cs s)
  unfolding run
  run-IsWellFormed [] s w = w
  run-IsWellFormed (c ∷ cs) s w = run-IsWellFormed cs (apply c s) (apply-IsWellFormed c s w)

  abbrev is_claimed : Result (RecordKey × SettlementClaim) → Bool
  is_claimed (ok (k, SettlementClaim.claimed)) = true
  is_claimed _ = false

  -- Whether the call grants the settlement of payment `p`.
  grants : ReplayKey → Call → InMemorySettlementStore → Bool
  grants p (claim q now) s =
      is_claimed (claim_for_settlement sha256_hexdigest q now s).0 && requested_replay_key q == p
  grants p _ s = false

  -- How many of the calls grant it.
  unfoldable pub grants_of : ReplayKey → List Call → InMemorySettlementStore → ℕ
  unfolding grants
  grants_of p [] s = 0
  grants_of p (c ∷ cs) s = (if grants p c s then 1 else 0) + grants_of p cs (apply c s)

  known : ReplayKey → InMemorySettlementStore → ℕ
  known p s = if is_some (Dict.get p s.provider_fingerprint_index) then 1 else 0

  grants-known :
      (p : ReplayKey) (c : Call) (s : InMemorySettlementStore)
      → IsWellFormed s
      → (if grants p c s then 1 else 0) + known p s ≤ known p (apply c s)
  unfolding apply grants known start_settle_attempt finish_settle_attempt mark_settled
      mark_submitted mark_settle_failed mark_unknown mutate
  grants-known p (claim q now) s w = elim (claim_cases sha256_hexdigest q now s w) [
    | inl (fresh, new, e) ↦ rw e (
        ground (
          arith,
          get-put (requested_replay_key q) p (requested_key q) s.provider_fingerprint_index,
          replay_key_eq.beq_iff (requested_replay_key q) p,
        ))
    | inr (k, r, found, by, e) ↦ rw e (ground (arith, not_claimed r))
  ]
  grants-known p _ s w = ground arith

  grants_of-known :
      (p : ReplayKey) (cs : List Call) (s : InMemorySettlementStore)
      → IsWellFormed s
      → grants_of p cs s + known p s ≤ known p (run cs s)
  unfolding grants_of run
  grants_of-known p [] s w = omega arith
  grants_of-known p (c ∷ cs) s w =
      omega
        (arith, grants-known p c s w, grants_of-known p cs (apply c s) (apply-IsWellFormed c s w))

  -- Over any sequence of calls on a new store, the settlement of one payment (seller, provider,
  -- scheme, network and fingerprint) is granted at most once, whatever the payment profiles.
  pub granted_once : (p : ReplayKey) (cs : List Call) → grants_of p cs init ≤ 1
  unfolding known
  granted_once p cs = ground (arith, grants_of-known p cs init init-IsWellFormed)
