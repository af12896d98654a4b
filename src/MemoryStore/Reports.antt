-- ===== src/MemoryStore/Reports.antt =====
-- What the read-only methods of the in-memory store report.
use x402_hosted_facilitator.Common.{
  ℕ, ◌+◌, String, ◌≡◌, refl, ap, ◌∙◌, inl, inr, Bool, true, false, ◌&&◌, Option, none, some, List,
  [], ◌∷◌, min, ◌==◌, nat_eq, if◌then◌else◌, ltb, filter, count_if, arith, Bool-cases,
}
use x402_hosted_facilitator.Common.Sort.{IsFirst, take-sort-IsFirst}
use x402_hosted_facilitator.Common.Dict.{Dict, get, put, get-put}
use x402_hosted_facilitator.Settlement.{SettlementRecord}
use x402_hosted_facilitator.Settlement.Status.{SettlementStatus, status_eq, status_beq_iff, is_in}
use x402_hosted_facilitator.MemoryStore.{InMemorySettlementStore}
use x402_hosted_facilitator.MemoryStore.Queries.{
  stored, number_of, add_one, tally, positive, zero_counts, settlement_status_counts, QueueFilter,
  queued, no_statuses, reconciliation_queue_status_counts, of_seller, older, newer,
  list_recent_records, list_recent_records_for_seller, list_reconciliation_queue,
  settlement_status_counts_for_seller,
}

-- No key twice.
abbrev Distinct : Dict SettlementStatus ℕ → Type 0
Distinct [] = Unit
Distinct ((k, n) ∷ d) = (get k d ≡ none) × Distinct d

put-Distinct :
    (k : SettlementStatus) (n : ℕ) (d : Dict SettlementStatus ℕ) → Distinct d → Distinct (put k n d)
unfolding put get
put-Distinct k n [] h = (refl, tt)
put-Distinct k n ((j, m) ∷ d) h = elim (Bool-cases (j == k)) [
  | inl e ↦ rw (e, put) h
  | inr e ↦
      rw (e, put)
        (
          ground (arith, get-put k j n d, status_beq_iff k j, status_beq_iff j k, h.0),
          put-Distinct k n d h.1,
        )
]

tally-Distinct :
    (test : SettlementRecord → Bool) (rs : List SettlementRecord) (counts : Dict SettlementStatus ℕ)
    → Distinct counts
    → Distinct (tally test rs counts)
unfolding tally
tally-Distinct test [] counts h = h
tally-Distinct test (r ∷ rs) counts h = elim (Bool-cases (test r)) [
  | inl e ↦
      rw (e, tally)
        (tally-Distinct test rs (add_one r.status counts) (put-Distinct r.status _ counts h))
  | inr e ↦ rw (e, tally) (tally-Distinct test rs counts h)
]

-- How many records of the status pass the test.
abbrev pub number : (SettlementRecord → Bool) → SettlementStatus → List SettlementRecord → ℕ
number test status = count_if (λ r. test r && r.status == status)

number-tally :
    (test : SettlementRecord → Bool) (rs : List SettlementRecord) (counts : Dict SettlementStatus ℕ)
    (status : SettlementStatus)
    → number_of (get status (tally test rs counts))
      ≡ number_of (get status counts) + number test status rs
unfolding tally
number-tally test [] counts status = omega arith
number-tally test (r ∷ rs) counts status = elim (Bool-cases (test r)) [
  | inl e ↦
      rw (e, tally)
        (ground (
          arith,
          number-tally test rs (add_one r.status counts) status,
          get-put r.status status (number_of (get r.status counts) + 1) counts,
          status_beq_iff r.status status,
        ))
  | inr e ↦ rw (e, tally) (omega (arith, number-tally test rs counts status))
]

get-positive :
    (d : Dict SettlementStatus ℕ) (status : SettlementStatus)
    → Distinct d
    → get status (positive d)
      ≡ (if number_of (get status d) == 0 then none else some (number_of (get status d)))
unfolding get
get-positive [] status h = refl
get-positive ((j, n) ∷ d) status h =
    let ih = get-positive d status h.1 in
    elim (Bool-cases (ltb 0 n)) [
      | inl e ↦ rw e (ground (arith, e, ih))
      | inr e ↦ rw e (ground (arith, e, ih, h.0, status_beq_iff j status))
    ]

zero_counts-Distinct : Distinct zero_counts
unfolding get
zero_counts-Distinct = (refl, (refl, (refl, (refl, (refl, (refl, (refl, (refl, tt))))))))

get-zero_counts : (status : SettlementStatus) → number_of (get status zero_counts) ≡ 0
unfolding get
get-zero_counts status = ground arith

-- a count as a dictionary shows it that leaves out zeros
abbrev pub shown : ℕ → Option ℕ
shown n = if n == 0 then none else some n

get-positive-tally :
    (test : SettlementRecord → Bool) (rs : List SettlementRecord) (status : SettlementStatus)
    → get status (positive (tally test rs zero_counts)) ≡ shown (number test status rs)
get-positive-tally test rs status =
    let counted : number_of (get status (tally test rs zero_counts)) ≡ number test status rs =
      omega (arith, number-tally test rs zero_counts status, get-zero_counts status) in
    get-positive (tally test rs zero_counts) status
      (tally-Distinct test rs zero_counts zero_counts-Distinct)
    ∙ ap shown counted

-- The counts by status, of the store and of a seller, give for each status the number of such
-- records, and no entry where there is none.
pub status_counts-number :
    (s : InMemorySettlementStore) (seller_account_id : String) (status : SettlementStatus)
    → (get status (settlement_status_counts s) ≡ shown (number (λ r. true) status (stored s)))
      × (get status (settlement_status_counts_for_seller seller_account_id s)
          ≡ shown (number (of_seller seller_account_id) status (stored s)))
unfolding settlement_status_counts settlement_status_counts_for_seller
status_counts-number s seller_account_id status = (
  get-positive-tally (λ r. true) (stored s) status,
  get-positive-tally (of_seller seller_account_id) (stored s) status,
)

older_total : (a b : SettlementRecord) → older a b ≡ false → older b a ≡ true
older_total a b h = ground arith

older_trans : (a b c : SettlementRecord) → older a b ≡ true → older b c ≡ true → older a c ≡ true
older_trans a b c h g = ground arith

-- The lists of recent records, of the store and of a seller, are the first `min limit 100` of those
-- records in the order of their update, newest first; a reconciliation queue is the first
-- `min limit 100` of the records that its filter lets through, oldest first, and is empty where the
-- filter names no status.
pub lists-AreFirst :
    (s : InMemorySettlementStore) (seller_account_id : String) (q : QueueFilter) (limit : ℕ)
    → IsFirst newer (min limit 100) (stored s) (list_recent_records limit s)
      × IsFirst newer
          (min limit 100)
          (filter (of_seller seller_account_id) (stored s))
          (list_recent_records_for_seller seller_account_id limit s)
      × (no_statuses q.statuses ≡ true → list_reconciliation_queue q limit s ≡ [])
      × (no_statuses q.statuses ≡ false
          → IsFirst older
              (min limit 100)
              (filter (queued q) (stored s))
              (list_reconciliation_queue q limit s))
unfolding list_recent_records list_recent_records_for_seller list_reconciliation_queue
lists-AreFirst s seller_account_id q limit =
    let newer_total = λ (x y : SettlementRecord) (h : newer x y ≡ false). older_total y x h in
    let newer_trans = λ (x y z : SettlementRecord) (h : newer x y ≡ true) (g : newer y z ≡ true).
      older_trans z y x g h in
    (
      take-sort-IsFirst newer newer_total newer_trans _ _,
      take-sort-IsFirst newer newer_total newer_trans _ _,
      (λ h. rw h refl),
      (λ h. rw h (take-sort-IsFirst older older_total older_trans _ _)),
    )

no_statuses-in :
    (statuses : List SettlementStatus) (status : SettlementStatus)
    → no_statuses statuses ≡ true
    → is_in status statuses ≡ false
no_statuses-in [] status h = refl
no_statuses-in (_ ∷ _) status h = absurd (cc)

nothing_queued :
    (q : QueueFilter) (status : SettlementStatus) (rs : List SettlementRecord)
    → no_statuses q.statuses ≡ true
    → number (queued q) status rs ≡ 0
unfolding queued
nothing_queued q status [] h = refl
nothing_queued q status (r ∷ rs) h =
    rw (no_statuses-in q.statuses r.status h) (omega (arith, nothing_queued q status rs h))

-- The counts of a reconciliation queue give for each status the number of records with that status
-- that the filter of the queue lets through, 0 for a status without an entry.
pub queue_status_counts-number :
    (s : InMemorySettlementStore) (q : QueueFilter) (status : SettlementStatus)
    → number_of (get status (reconciliation_queue_status_counts q s))
      ≡ number (queued q) status (stored s)
unfolding reconciliation_queue_status_counts
queue_status_counts-number s q status = elim (Bool-cases (no_statuses q.statuses)) [
  | inl e ↦ rw (e, nothing_queued q status (stored s) e) (unfold get in refl)
  | inr e ↦ rw e (unfold get in omega (arith, number-tally (queued q) (stored s) [] status))
]
