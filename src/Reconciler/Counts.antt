-- ===== src/Reconciler/Counts.antt =====
-- The statistics of a run account for every scanned and every claimed record.
use x402_hosted_facilitator.Common.{
  ℕ, suc, ◌+◌, ◌≤◌, ◌<◌, String, ◌≡◌, Bool, true, false, Option, none, some, List, [], ◌∷◌, ok, err,
  Result, ◌==◌, arith, length,
}
use mathlib.Core.Path.{subst}
use x402_hosted_facilitator.Settlement.{SettlementRecord}
use x402_hosted_facilitator.Settlement.Status.{SettlementStatus, status_eq, is_in}
use x402_hosted_facilitator.Postgres.{Database}
use x402_hosted_facilitator.Reconciler.{
  ReconciliationRunStats, ReconciliationOutcome, ReconciliationStatus, Provider, counted, caught,
  apply_by_status, apply_settled, after_provider_error, after_provider, reconcile_claimed,
  reconcile_with_provider, after_claim, or_else, default_unknown_reason, continue, Counting,
  no_stats, one_error, review, pend, mark_unknown, mark_manual_or_pending, apply_outcome, claim,
  reconcile_record, reconcile_all, run_once,
}
use x402_hosted_facilitator.Reconciler.Scan.{HostedSettlementReconciler, scan_candidates}

-- How many results of claimed records the statistics hold.
abbrev pub results : ReconciliationRunStats → ℕ
results s = s.settled + (s.failed + (s.marked_unknown + (s.manual_review + (s.pending + s.errors))))

-- If the call did not raise, its statistics satisfy the predicate.
abbrev pub Ends : (ReconciliationRunStats → Type 0) → Result ReconciliationRunStats → Type 0
Ends P (ok s) = P s
Ends P (err e) = Unit

-- One claimed record has got a result.
abbrev pub Advances : ReconciliationRunStats → ReconciliationRunStats → Type 0
Advances s t =
    (t.scanned ≡ s.scanned)
    × (t.claimed ≡ s.claimed)
    × (t.skipped ≡ s.skipped)
    × (results s < results t)

counted-Ends :
    (P : ReconciliationRunStats → Type 0) (stats : ReconciliationRunStats)
    (m : Result SettlementRecord × Database)
    → P stats
    → Ends P (counted stats m).0
counted-Ends P stats (ok r, db) h = h
counted-Ends P stats (err e, db) h = tt

Ends-elim :
    (P : ReconciliationRunStats → Type 0) (b : Bool)
    (x y : Result ReconciliationRunStats × Database)
    → Ends P x.0
    → Ends P y.0
    → Ends P (elim b as (λ _. Result ReconciliationRunStats × Database) [ true ↦ x | false ↦ y ]).0
Ends-elim P true x y hx hy = hx
Ends-elim P false x y hx hy = hy

-- An exception that is caught counts as a result as well.
caught-Ends :
    (s t : ReconciliationRunStats) (m : Result ReconciliationRunStats × Database)
    → Advances s (record t { errors = t.errors + 1 })
    → Ends (Advances s) m.0
    → Ends (Advances s) (caught t m).0
caught-Ends s t (ok u, db) raised h = h
caught-Ends s t (err e, db) raised h = raised

module _ (c : HostedSettlementReconciler) (now at : ℕ) where
  mark_unknown-Ends :
      (r : SettlementRecord) (reason : Option String) (s : ReconciliationRunStats) (db : Database)
      → Ends (Advances s) (mark_unknown c now at r reason s db).0
  unfolding mark_unknown
  mark_unknown-Ends r reason s db = counted-Ends (Advances s) _ _ (omega arith)

  mark_manual_or_pending-Ends :
      (later : ℕ) (r : SettlementRecord) (reason : Option String) (s : ReconciliationRunStats)
      (db : Database)
      → Ends (Advances s) (mark_manual_or_pending c now at later r reason s db).0
  unfolding mark_manual_or_pending
  mark_manual_or_pending-Ends later r reason s db =
      let why = or_else reason (default_unknown_reason r) in
      Ends-elim (Advances s) (r.status == SettlementStatus.settle_in_progress)
        (mark_unknown c now at r why s db) _ (mark_unknown-Ends r why s db)
        (Ends-elim (Advances s) _ (review c now at r reason s db) (pend c now at s db)
          (counted-Ends (Advances s) (record s { manual_review = s.manual_review + 1 }) _
            (omega arith))
          (omega arith))

  settled-Ends :
      (r : SettlementRecord) (transaction payer : Option String) (s : ReconciliationRunStats)
      (db : Database)
      → Ends (Advances s) (apply_settled c now at r transaction payer s db).0
  settled-Ends r none payer s db = tt
  settled-Ends r (some transaction) payer s db = counted-Ends (Advances s) _ _ (omega arith)

  apply_outcome-Ends :
      (r : SettlementRecord) (o : ReconciliationOutcome) (status : ReconciliationStatus)
      (s : ReconciliationRunStats) (db : Database)
      → Ends (Advances s) (apply_by_status c now at r o status s db).0
  apply_outcome-Ends r o ReconciliationStatus.settled s db =
      settled-Ends r (or_else o.transaction (or_else r.transaction none)) (or_else o.payer r.payer)
        s db
  apply_outcome-Ends r o ReconciliationStatus.failed_final s db =
      Ends-elim (Advances s) (r.status == SettlementStatus.settle_in_progress) _ _
        (mark_unknown-Ends r _ s db) (counted-Ends (Advances s) _ _ (omega arith))
  apply_outcome-Ends r o ReconciliationStatus.unknown s db =
      Ends-elim (Advances s)
        (is_in r.status (SettlementStatus.submitted ∷ SettlementStatus.settle_in_progress ∷ [])) _ _
        (counted-Ends (Advances s) _ _ (omega arith)) (mark_manual_or_pending-Ends now r _ s db)
  apply_outcome-Ends r o ReconciliationStatus.manual_review s db =
      mark_manual_or_pending-Ends _ r _ s db
  apply_outcome-Ends r o ReconciliationStatus.pending s db =
      mark_manual_or_pending-Ends now r _ s db

  provider_error-Ends :
      (r : SettlementRecord) (s : ReconciliationRunStats) (db : Database)
      → Ends (Advances s) (after_provider_error c now at r s db).0
  unfolding mark_unknown
  provider_error-Ends r s db =
      Ends-elim (Advances s) (r.status == SettlementStatus.settle_in_progress) _ _
        (caught-Ends s (one_error s) _ (omega arith) (
          counted-Ends (Advances s)
            (record s { errors = s.errors + 1; marked_unknown = s.marked_unknown + 1 }) _
            (omega arith)))
        (omega arith)

  after_provider-Ends :
      (r : SettlementRecord) (answer : Result ReconciliationOutcome) (s : ReconciliationRunStats)
      (db : Database)
      → Ends (Advances s) (after_provider c now at r answer s db).0
  unfolding apply_outcome
  after_provider-Ends r (err e) s db = provider_error-Ends r s db
  after_provider-Ends r (ok o) s db =
      caught-Ends s s _ (omega arith) (apply_outcome-Ends r o o.status s db)

  reconcile_claimed-Ends :
      (provider : Option Provider) (r : SettlementRecord) (s : ReconciliationRunStats)
      (db : Database)
      → Ends (Advances s) (reconcile_claimed c now at provider r s db).0
  reconcile_claimed-Ends none r s db = mark_manual_or_pending-Ends now r _ s db
  reconcile_claimed-Ends (some provider) r s db =
      after_provider-Ends r (reconcile_with_provider c now at provider r) s db

-- What a record adds: it is skipped, or it is claimed and has got a result.
abbrev pub Accounts : ℕ → ReconciliationRunStats → ReconciliationRunStats → Type 0
Accounts n s t =
    (t.scanned ≡ s.scanned)
    × (t.claimed + t.skipped ≡ s.claimed + s.skipped + n)
    × (t.claimed + results s ≤ s.claimed + results t)

module _ (c : HostedSettlementReconciler) (now at : ℕ)
    (provider_by_name : String → Option Provider) where
  Advances-Accounts :
      (s : ReconciliationRunStats) (m : Result ReconciliationRunStats)
      → Ends (Advances (record s { claimed = s.claimed + 1 })) m
      → Ends (Accounts 1 s) m
  Advances-Accounts s (ok t) h = omega (arith, h.0, h.1, h.2, h.3)
  Advances-Accounts s (err e) h = tt

  after_claim-Ends :
      (s : ReconciliationRunStats) (m : Result (Option SettlementRecord) × Database)
      → Ends (Accounts 1 s) (after_claim c now at provider_by_name s m).0
  after_claim-Ends s (err e, db) = tt
  after_claim-Ends s (ok none, db) = omega arith
  after_claim-Ends s (ok (some r), db) = Advances-Accounts s _ (
      reconcile_claimed-Ends c now at (provider_by_name r.provider) r
        (record s { claimed = s.claimed + 1 }) db)

  reconcile_record-Ends :
      (r : SettlementRecord) (s : ReconciliationRunStats) (db : Database)
      → Ends (Accounts 1 s) (reconcile_record c now at provider_by_name r s db).0
  unfolding reconcile_record
  reconcile_record-Ends r s db = after_claim-Ends s (claim c now at r db)

  Accounts-trans :
      (n : ℕ) (s t : ReconciliationRunStats) (m : Result ReconciliationRunStats)
      → Accounts 1 s t
      → Ends (Accounts n t) m
      → Ends (Accounts (suc n) s) m
  Accounts-trans n s t (ok u) h k = omega (arith, h.0, h.1, h.2, k.0, k.1, k.2)
  Accounts-trans n s t (err e) h k = tt

  -- the rest of the loop, after a record that answered `m`
  continue-Ends :
      (n : ℕ) (rest : Counting) (s : ReconciliationRunStats)
      (m : Result ReconciliationRunStats × Database)
      → Ends (Accounts 1 s) m.0
      → ((t : ReconciliationRunStats) (db : Database) → Ends (Accounts n t) (rest t db).0)
      → Ends (Accounts (suc n) s) (continue rest m).0
  continue-Ends n rest s (err e, db) h k = tt
  continue-Ends n rest s (ok t, db) h k = Accounts-trans n s t _ h (k t db)

  reconcile_all-Ends :
      (rs : List SettlementRecord) (s : ReconciliationRunStats) (db : Database)
      → Ends (Accounts (length rs) s) (reconcile_all c now at provider_by_name rs s db).0
  unfolding reconcile_all
  reconcile_all-Ends [] s db = omega arith
  reconcile_all-Ends (r ∷ rs) s db =
      continue-Ends (length rs) (reconcile_all c now at provider_by_name rs) s _
        (reconcile_record-Ends r s db) (λ t d. reconcile_all-Ends rs t d)

  -- A run that raises nothing scans the candidates, and each of them it either skips or claims; and
  -- every claimed record is counted under a result at least once.
  pub run_once-accounts :
      (db : Database) (t : ReconciliationRunStats)
      → (run_once c now at provider_by_name db).0 ≡ ok t
      → (t.scanned ≡ length (scan_candidates c now at db))
        × (t.claimed + t.skipped ≡ t.scanned)
        × (t.claimed ≤ results t)
  unfolding run_once
  run_once-accounts db t h =
      let candidates = scan_candidates c now at db in
      let start : ReconciliationRunStats = record no_stats { scanned = length candidates } in
      let k : Accounts (length candidates) start t =
        subst (Ends (Accounts (length candidates) start)) h
          (reconcile_all-Ends candidates start db) in
      omega (arith, k.0, k.1, k.2)
