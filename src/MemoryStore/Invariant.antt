-- ===== src/MemoryStore/Invariant.antt =====
-- The invariant that ties `_records` to `_provider_fingerprint_index`, and that every method of
-- `InMemorySettlementStore` preserves it.
use x402_hosted_facilitator.Common.{
  ℕ, nat_eq, ◌<◌, String, ◌≡◌, refl, sym, ap, ◌∙◌, ◌≢◌, ◌⊎◌, inl, inr, none, some, arith, ◌==◌,
  if◌then◌else◌, Option-cases, Bool-cases,
}
use x402_hosted_facilitator.Common.Dict
use x402_hosted_facilitator.Common.Dict.{Dict, get-put}
use x402_hosted_facilitator.Settlement.{SettlementRecord, ClaimRequest}
use x402_hosted_facilitator.Settlement.Identity.{
  RecordKey, ReplayKey, record_key_eq, replay_key_eq, record_key, replay_key, requested_key,
  requested_replay_key,
}
use x402_hosted_facilitator.MemoryStore.{
  AttemptEntry, InMemorySettlementStore, init, record_duplicate_claim, write_record, new_record,
  inserted, inserted, claim_for_settlement, mutate,
}

-- A record stands under its own key, its replay key leads back to it, its id was handed out, and
-- no other record has that id; what the index names is there; the ids of attempts were handed out.
pub record IsWellFormed (s : InMemorySettlementStore) : Type 0 where
  pub keyed :
      (k : RecordKey) (r : SettlementRecord) → Dict.get k s.records ≡ some r → record_key r ≡ k
  pub indexed :
      (k : RecordKey) (r : SettlementRecord)
      → Dict.get k s.records ≡ some r
      → Dict.get (replay_key r) s.provider_fingerprint_index ≡ some k
  pub index_sound :
      (p : ReplayKey) (k : RecordKey)
      → Dict.get p s.provider_fingerprint_index ≡ some k
      → (r : SettlementRecord) × (Dict.get k s.records ≡ some r) × (replay_key r ≡ p)
  pub numbered :
      (k : RecordKey) (r : SettlementRecord)
      → Dict.get k s.records ≡ some r
      → (n : ℕ) × (r.record_id ≡ some n) × (n < s.next_record_id)
  pub distinct_ids :
      (k j : RecordKey) (r t : SettlementRecord)
      → Dict.get k s.records ≡ some r
      → Dict.get j s.records ≡ some t
      → r.record_id ≡ t.record_id
      → k ≡ j
  pub attempted :
      (id : ℕ) (a : AttemptEntry) → Dict.get id s.attempts ≡ some a → id < s.next_attempt_id

pub init-IsWellFormed : IsWellFormed init
unfolding Dict.get
init-IsWellFormed = record {
  keyed = λ k r h. cc;
  indexed = λ k r h. cc;
  index_sound = λ p k h. absurd (cc);
  numbered = λ k r h. absurd (cc);
  distinct_ids = λ k j r t h i e. absurd (cc);
  attempted = λ id a h. absurd (cc);
}

-- The fields by which a record is found.
abbrev pub SameIdentity : SettlementRecord → SettlementRecord → Type 0
SameIdentity r t =
    (record_key t ≡ record_key r) × (replay_key t ≡ replay_key r) × (t.record_id ≡ r.record_id)

module _ (k : RecordKey) (r t : SettlementRecord) (s : InMemorySettlementStore) (w : IsWellFormed s)
    (found : Dict.get k s.records ≡ some r) (same : SameIdentity r t) where
  -- The record found after a write is the old one or stands in for it.
  found_after_write :
      (j : RecordKey) (x : SettlementRecord)
      → Dict.get j (write_record k t s).records ≡ some x
      → (y : SettlementRecord) × (Dict.get j s.records ≡ some y) × SameIdentity y x
  found_after_write j x h = elim (Bool-cases (k == j)) [
    | inl p ↦ (
      r,
      ground (arith, get-put k j t s.records, record_key_eq.beq_iff k j),
      ground (arith, get-put k j t s.records),
    )
    | inr p ↦ (x, ground (arith, get-put k j t s.records), (refl, refl, refl))
  ]

  -- What was found before a write is found after it, or its stand-in is.
  found_before_write :
      (j : RecordKey) (y : SettlementRecord)
      → Dict.get j s.records ≡ some y
      → (x : SettlementRecord) × (Dict.get j (write_record k t s).records ≡ some x)
        × SameIdentity y x
  found_before_write j y h = elim (Bool-cases (k == j)) [
    | inl p ↦
        let kj : k ≡ j = (record_key_eq.beq_iff k j).0 p in
        let ry : some r ≡ some y = rw (sym found) (rw kj h) in
        (t, ground (arith, get-put k j t s.records), ground arith)
    | inr p ↦ (y, ground (arith, get-put k j t s.records), (refl, refl, refl))
  ]

  pub write-IsWellFormed : IsWellFormed (write_record k t s)
  write-IsWellFormed = record {
    keyed = λ j x h. let (y, g, e) = found_after_write j x h in ground (arith, w.keyed j y);
    indexed = λ j x h. let (y, g, e) = found_after_write j x h in ground (arith, w.indexed j y);
    index_sound = λ p j h.
        let (y, g, e) = w.index_sound p j h in
        let (x, g', e') = found_before_write j y g in (x, g', ground arith);
    numbered = λ j x h.
        let (y, g, e) = found_after_write j x h in
        let (n, a, b) = w.numbered j y g in (n, ground arith, b);
    distinct_ids = λ j i x z h g e.
        let (y, h', e') = found_after_write j x h in
        let (u, g', f') = found_after_write i z g in w.distinct_ids j i y u h' g' (ground arith);
    attempted = w.attempted;
  }

module _ (sha256_hexdigest : String → String) (q : ClaimRequest) (now : ℕ)
    (s : InMemorySettlementStore) (w : IsWellFormed s)
    (fresh : Dict.get (requested_key q) s.records ≡ none)
    (new : Dict.get (requested_replay_key q) s.provider_fingerprint_index ≡ none) where
  abbrev added : SettlementRecord
  added = new_record sha256_hexdigest q now s.next_record_id

  -- After an insertion a record is the new one or was there before.
  found_after_insert :
      (j : RecordKey) (x : SettlementRecord)
      → Dict.get j (inserted sha256_hexdigest q now s).records ≡ some x
      → ((requested_key q ≡ j) × (x ≡ added)) ⊎ (Dict.get j s.records ≡ some x)
  found_after_insert j x h = elim (Bool-cases (requested_key q == j)) [
    | inl p ↦ inl (
      (record_key_eq.beq_iff (requested_key q) j).0 p,
      ground (arith, get-put (requested_key q) j added s.records),
    )
    | inr p ↦ inr (ground (arith, get-put (requested_key q) j added s.records))
  ]

  kept_by_insert :
      (j : RecordKey) (x : SettlementRecord)
      → Dict.get j s.records ≡ some x
      → Dict.get j (inserted sha256_hexdigest q now s).records ≡ some x
  kept_by_insert j x h = ground (
    arith,
    get-put (requested_key q) j added s.records,
    record_key_eq.beq_iff (requested_key q) j,
  )

  index_at :
      (x : SettlementRecord)
      → Dict.get (replay_key x) (inserted sha256_hexdigest q now s).provider_fingerprint_index ≡ (
          if requested_replay_key q == replay_key x
          then some (requested_key q)
          else Dict.get (replay_key x) s.provider_fingerprint_index)
  index_at x =
      get-put (requested_replay_key q) (replay_key x) (requested_key q) s.provider_fingerprint_index

  indexed_after_insert :
      (j : RecordKey) (x : SettlementRecord)
      → Dict.get j (inserted sha256_hexdigest q now s).records ≡ some x
      → Dict.get (replay_key x) (inserted sha256_hexdigest q now s).provider_fingerprint_index
        ≡ some j
  indexed_after_insert j x h = elim (found_after_insert j x h) [
    | inl (a, b) ↦
        let same : requested_replay_key q ≡ replay_key x = sym (ap replay_key b) in
        let hit = (replay_key_eq.beq_iff (requested_replay_key q) (replay_key x)).1 same in
        index_at x ∙ rw (hit, a)
    | inr g ↦ ground (
      arith,
      index_at x,
      replay_key_eq.beq_iff (requested_replay_key q) (replay_key x),
      w.indexed j x g,
    )
  ]

  index_sound_after_insert :
      (p : ReplayKey) (j : RecordKey)
      → Dict.get p (inserted sha256_hexdigest q now s).provider_fingerprint_index ≡ some j
      → (x : SettlementRecord) × (Dict.get j (inserted sha256_hexdigest q now s).records ≡ some x)
        × (replay_key x ≡ p)
  index_sound_after_insert p j h = elim (Bool-cases (requested_replay_key q == p)) [
    | inl e ↦ (
      added,
      ground (
        arith,
        get-put (requested_replay_key q) p (requested_key q) s.provider_fingerprint_index,
        get-put (requested_key q) j added s.records,
        record_key_eq.beq_iff (requested_key q) j,
      ),
      (replay_key_eq.beq_iff (requested_replay_key q) p).0 e,
    )
    | inr e ↦
        let (x, g, same) = w.index_sound p j (
          ground (
            arith,
            get-put (requested_replay_key q) p (requested_key q) s.provider_fingerprint_index,
          )) in
        (x, kept_by_insert j x g, same)
  ]

  new_id :
      (j : RecordKey) (x : SettlementRecord)
      → Dict.get j s.records ≡ some x
      → x.record_id ≢ added.record_id
  new_id j x g e = let (n, m, l) = w.numbered j x g in grind arith

  distinct_after_insert :
      (j i : RecordKey) (x z : SettlementRecord)
      → Dict.get j (inserted sha256_hexdigest q now s).records ≡ some x
      → Dict.get i (inserted sha256_hexdigest q now s).records ≡ some z
      → x.record_id ≡ z.record_id
      → j ≡ i
  distinct_after_insert j i x z h g e = elim (found_after_insert j x h) [
    | inl (a, b) ↦ elim (found_after_insert i z g) [
      | inl (c, d) ↦ cc
      | inr g' ↦ absurd (new_id i z g' (cc))
    ]
    | inr h' ↦ elim (found_after_insert i z g) [
      | inl (c, d) ↦ absurd (new_id j x h' (cc))
      | inr g' ↦ w.distinct_ids j i x z h' g' e
    ]
  ]

  insert-IsWellFormed : IsWellFormed (inserted sha256_hexdigest q now s)
  insert-IsWellFormed = record {
    keyed = λ j x h. elim (found_after_insert j x h) [ inl (a, b) ↦ cc | inr g ↦ w.keyed j x g ];
    indexed = indexed_after_insert;
    index_sound = index_sound_after_insert;
    numbered = λ j x h. elim (found_after_insert j x h) [
      | inl (a, b) ↦ (s.next_record_id, cc, omega arith)
      | inr g ↦ let (n, e, l) = w.numbered j x g in (n, e, omega arith)
    ];
    distinct_ids = distinct_after_insert;
    attempted = w.attempted;
  }

module _ (sha256_hexdigest : String → String) (q : ClaimRequest) (now : ℕ) where
  pub claim-IsWellFormed :
      (s : InMemorySettlementStore)
      → IsWellFormed s
      → IsWellFormed (claim_for_settlement sha256_hexdigest q now s).1
  unfolding claim_for_settlement
  claim-IsWellFormed s w = elim (Option-cases (Dict.get (requested_key q) s.records)) [
    | inl fresh ↦
        elim (Option-cases (Dict.get (requested_replay_key q) s.provider_fingerprint_index)) [
          | inl new ↦ rw fresh (rw new (insert-IsWellFormed sha256_hexdigest q now s w fresh new))
          | inr (k, indexed) ↦
              let (r, found, e) = w.index_sound _ k indexed in
              rw fresh (
                rw indexed (
                  rw found (
                    write-IsWellFormed k r (record_duplicate_claim now r) s w found
                      (refl, refl, refl))))
        ]
    | inr (r, found) ↦
        rw found
          (write-IsWellFormed _ r (record_duplicate_claim now r) s w found (refl, refl, refl))
  ]

-- Changing fields of a stored record other than those that identify it.
pub mutate-IsWellFormed :
    (k : RecordKey) (change : SettlementRecord → SettlementRecord) (s : InMemorySettlementStore)
    → ((r : SettlementRecord) → SameIdentity r (change r))
    → IsWellFormed s
    → IsWellFormed (mutate k change s)
unfolding mutate
mutate-IsWellFormed k change s same w = elim (Option-cases (Dict.get k s.records)) [
  | inl e ↦ rw (e, mutate) w
  | inr (r, e) ↦ rw (e, mutate) (write-IsWellFormed k r (change r) s w e (same r))
]
