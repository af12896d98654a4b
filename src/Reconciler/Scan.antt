-- ===== src/Reconciler/Scan.antt =====
-- `_scan_candidates` (src/hosted_facilitator/hosted/reconciliation.py): one record of each status in
-- turn, up to the limit. Durations are natural numbers of the clock's unit; a bound that lies before
-- the beginning of the clock is that beginning.
use x402_hosted_facilitator.Common.{
  ℕ, zero, suc, ◌<◌, ◌≡◌, inl, inr, Bool-cases, ◌-◌, ◌≤◌, String, Bool, true, false, Option, none,
  some, List, [], ◌∷◌, ◌++◌, arith, leb, length, get_elem?, length-append,
}
use x402_hosted_facilitator.Settlement.{SettlementRecord}
use x402_hosted_facilitator.Settlement.Status.{SettlementStatus}
use x402_hosted_facilitator.Postgres.{Database}
use x402_hosted_facilitator.Postgres.Lease.{list_reconciliation_candidates}

-- the fields that `__init__` sets
pub record HostedSettlementReconciler : Type 0 where
  pub owner : String
  pub lease_seconds : ℕ
  pub stale_in_progress_after : ℕ
  pub stale_submitted_after : ℕ
  pub stale_unknown_after : ℕ
  pub manual_review_after : ℕ
  pub limit : ℕ

-- the records so far, whether this round found one, and whether the limit is reached
record Round : Type 0 where
  records : List SettlementRecord
  made_progress : Bool
  is_full : Bool

abbrev add_record : ℕ → SettlementRecord → Round → Round
add_record limit r round =
    let records = round.records ++ r ∷ [] in
    record { records = records; made_progress = true; is_full = leb limit (length records) }

-- `if index < len(bucket)`, and nothing after the return
abbrev visit : ℕ → Option SettlementRecord → Round → Round
visit limit none round = round
visit limit (some r) round = elim round.is_full [ true ↦ round | false ↦ add_record limit r round ]

-- `for bucket in buckets`
visit_all : ℕ → ℕ → List (List SettlementRecord) → Round → Round
visit_all limit index [] round = round
visit_all limit index (bucket ∷ buckets) round =
    visit_all limit index buckets (visit limit (get_elem? bucket index) round)

-- the return in a round, `if not made_progress: break`, and the rounds that follow
abbrev end_round : Round → List SettlementRecord → List SettlementRecord
end_round round rest = elim round.is_full [
  | true ↦ round.records
  | false ↦ elim round.made_progress [ true ↦ rest | false ↦ round.records ]
]

-- `for index in range(limit)`, with `rounds` of them to go
take_turns :
    ℕ → ℕ → ℕ → List (List SettlementRecord) → List SettlementRecord → List SettlementRecord
unfolding visit_all
take_turns zero limit index buckets records = records
take_turns (suc rounds) limit index buckets records =
    let round =
      visit_all limit index buckets
        (record { records = records; made_progress = false; is_full = false }) in
    end_round round (take_turns rounds limit (suc index) buckets round.records)

abbrev candidates_of :
    HostedSettlementReconciler → ℕ → ℕ → SettlementStatus → ℕ → Database → List SettlementRecord
candidates_of c now at status after db =
    list_reconciliation_candidates (status ∷ []) (now - after) c.limit at db

-- `now` is the reconciler's clock, `at` the store's
unfoldable pub scan_candidates :
    HostedSettlementReconciler → ℕ → ℕ → Database → List SettlementRecord
unfolding take_turns
scan_candidates c now at db =
    take_turns c.limit c.limit 0
      (candidates_of c now at SettlementStatus.settle_in_progress c.stale_in_progress_after db
        ∷ candidates_of c now at SettlementStatus.submitted c.stale_submitted_after db
        ∷ candidates_of c now at SettlementStatus.unknown c.stale_unknown_after db
        ∷ [])
      []

-- A round stays within the limit, and below it until it is full.
abbrev IsWithin : ℕ → Round → Type 0
IsWithin limit round =
    (length round.records ≤ limit) × (round.is_full ≡ false → length round.records < limit)

add_record-IsWithin :
    (limit : ℕ) (r : SettlementRecord) (round : Round)
    → length round.records < limit
    → IsWithin limit (add_record limit r round)
add_record-IsWithin limit r round h =
    let longer = length-append round.records (r ∷ []) in
    (omega (arith, longer), λ open_still. ground arith)

visit-IsWithin :
    (limit : ℕ) (found : Option SettlementRecord) (round : Round)
    → IsWithin limit round
    → IsWithin limit (visit limit found round)
visit-IsWithin limit none round h = h
visit-IsWithin limit (some r) round h = elim (Bool-cases round.is_full) [
  | inl e ↦ rw e (rw e at h)
  | inr e ↦ rw e (add_record-IsWithin limit r round (h.1 e))
]

visit_all-IsWithin :
    (limit index : ℕ) (buckets : List (List SettlementRecord)) (round : Round)
    → IsWithin limit round
    → IsWithin limit (visit_all limit index buckets round)
unfolding visit_all
visit_all-IsWithin limit index [] round h = h
visit_all-IsWithin limit index (bucket ∷ buckets) round h =
    visit_all-IsWithin limit index buckets _ (visit-IsWithin limit (get_elem? bucket index) round h)

end_round-le :
    (limit : ℕ) (round : Round) (rest : List SettlementRecord)
    → IsWithin limit round
    → (round.is_full ≡ false → length rest ≤ limit)
    → length (end_round round rest) ≤ limit
end_round-le limit round rest h k = elim (Bool-cases round.is_full) [
  | inl full ↦ rw full (h.0)
  | inr more ↦ elim (Bool-cases round.made_progress) [
    | inl moved ↦ rw (more, moved) (k more)
    | inr still ↦ rw (more, still) (h.0)
  ]
]

take_turns-le :
    (rounds limit index : ℕ) (buckets : List (List SettlementRecord))
    (records : List SettlementRecord)
    → length records < limit
    → length (take_turns rounds limit index buckets records) ≤ limit
unfolding take_turns
take_turns-le zero limit index buckets records h = omega arith
take_turns-le (suc rounds) limit index buckets records h =
    let round =
      visit_all limit index buckets
        (record { records = records; made_progress = false; is_full = false }) in
    let within : IsWithin limit round =
      visit_all-IsWithin limit index buckets _ (omega arith, λ e. h) in
    end_round-le limit round _ within
      (λ more. take_turns-le rounds limit (suc index) buckets round.records (within.1 more))

take_all-le :
    (limit : ℕ) (buckets : List (List SettlementRecord))
    → length (take_turns limit limit 0 buckets []) ≤ limit
unfolding take_turns
take_all-le zero buckets = omega arith
take_all-le (suc n) buckets = take_turns-le (suc n) (suc n) 0 buckets [] (omega arith)

-- A run scans at most `limit` records.
pub scan_candidates-le :
    (c : HostedSettlementReconciler) (now at : ℕ) (db : Database)
    → length (scan_candidates c now at db) ≤ c.limit
unfolding scan_candidates
scan_candidates-le c now at db = take_all-le c.limit _
