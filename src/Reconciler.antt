-- ===== src/Reconciler.antt =====
-- `HostedSettlementReconciler` (src/hosted_facilitator/hosted/reconciliation.py) over the Postgres
-- store. What a provider reports is a parameter; `now` is the reconciler's clock and `at` the
-- store's, read once per run. An exception that `run_once` does not catch is an `err`.
pub mod Scan
pub mod Counts
use x402_hosted_facilitator.Common.{
  ℕ, ◌+◌, ◌-◌, String, Bool, true, false, ◌&&◌, ◌||◌, Option, none, some, List, [], ◌∷◌, ok, err,
  Error, Result, value_error, Action, ◌==◌, string_eq, if◌then◌else◌, leb, length,
}
use x402_hosted_facilitator.Settlement.{SettlementRecord}
use x402_hosted_facilitator.Settlement.Status.{SettlementStatus, status_eq, is_in}
use x402_hosted_facilitator.Postgres.{Database}
use x402_hosted_facilitator.Postgres.Lease.{claim_reconciliation_record}
use x402_hosted_facilitator.Postgres.Reconcile.{
  mark_reconciled_settled, mark_reconciled_failed, mark_reconciled_unknown, mark_manual_review,
}
use Scan.{HostedSettlementReconciler, scan_candidates}

pub data ReconciliationStatus : Type 0 where
  settled failed_final unknown manual_review pending : ReconciliationStatus

pub record ReconciliationOutcome : Type 0 where
  pub status : ReconciliationStatus
  pub transaction : Option String
  pub payer : Option String
  pub error_reason : Option String

pub record ReconciliationRunStats : Type 0 where
  pub scanned : ℕ
  pub claimed : ℕ
  pub settled : ℕ
  pub failed : ℕ
  pub marked_unknown : ℕ
  pub manual_review : ℕ
  pub pending : ℕ
  pub skipped : ℕ
  pub errors : ℕ

abbrev pub no_stats : ReconciliationRunStats
no_stats = record {
  scanned = 0;
  claimed = 0;
  settled = 0;
  failed = 0;
  marked_unknown = 0;
  manual_review = 0;
  pending = 0;
  skipped = 0;
  errors = 0;
}

-- A provider's `reconcile_settlement`, if it has one, where an `err` is any exception.
pub record Provider : Type 0 where
  pub reconcile_settlement : Option (SettlementRecord → Result ReconciliationOutcome)

-- `value or fallback`
abbrev pub or_else : Option String → Option String → Option String
or_else none fallback = fallback
or_else (some text) fallback = if text == "" then fallback else some text

-- `_default_unknown_reason`
abbrev pub default_unknown_reason : SettlementRecord → Option String
default_unknown_reason r =
    if r.status == SettlementStatus.settle_in_progress
    then some "stale_settle_in_progress"
    else some "reconciliation_unknown"

-- the statistics after a call of the store that did not raise
abbrev pub counted :
    ReconciliationRunStats
    → Result SettlementRecord × Database
    → Result ReconciliationRunStats × Database
counted stats (err e, db) = (err e, db)
counted stats (ok r, db) = (ok stats, db)

abbrev pub Counting : Type 0
Counting = ReconciliationRunStats → Action Database ReconciliationRunStats

-- the loop goes on unless an exception left it
abbrev pub continue :
    Counting → Result ReconciliationRunStats × Database → Result ReconciliationRunStats × Database
continue rest (err e, db) = (err e, db)
continue rest (ok stats, db) = rest stats db

-- `except Exception: stats.errors += 1`
abbrev pub caught :
    ReconciliationRunStats
    → Result ReconciliationRunStats × Database
    → Result ReconciliationRunStats × Database
caught stats (ok stats', db) = (ok stats', db)
caught stats (err e, db) = (ok (record stats { errors = stats.errors + 1 }), db)

abbrev pub one_error : ReconciliationRunStats → ReconciliationRunStats
one_error stats = record stats { errors = stats.errors + 1 }

module _ (c : HostedSettlementReconciler) (now at : ℕ) where
  -- `_mark_unknown`
  unfoldable pub mark_unknown : SettlementRecord → Option String → Counting
  mark_unknown r reason stats db =
      counted (record stats { marked_unknown = stats.marked_unknown + 1 })
        (mark_reconciled_unknown r (or_else reason (default_unknown_reason r)) c.owner at db)

  abbrev pub pend : Counting
  pend stats db = (ok (record stats { pending = stats.pending + 1 }), db)

  abbrev pub review : SettlementRecord → Option String → Counting
  review r reason stats db =
      counted (record stats { manual_review = stats.manual_review + 1 })
        (mark_manual_review r reason c.owner at db)

  -- `now - record.updated_at >= self._manual_review_after`, where `now` is `later`
  abbrev is_overdue : ℕ → SettlementRecord → Bool
  is_overdue later r = leb (r.updated_at + c.manual_review_after) later

  -- `_mark_manual_or_pending`, with its `now`
  unfoldable pub mark_manual_or_pending : ℕ → SettlementRecord → Option String → Counting
  unfolding mark_unknown
  mark_manual_or_pending later r reason stats db =
      elim (r.status == SettlementStatus.settle_in_progress) [
        | true ↦ mark_unknown r (or_else reason (default_unknown_reason r)) stats db
        | false ↦ elim (r.status == SettlementStatus.unknown && is_overdue later r) [
          | true ↦ review r reason stats db
          | false ↦ pend stats db
        ]
      ]

  abbrev pub apply_settled : SettlementRecord → Option String → Option String → Counting
  apply_settled r none payer stats db =
      (err (value_error "settled reconciliation outcome requires transaction proof"), db)
  apply_settled r (some transaction) payer stats db =
      counted (record stats { settled = stats.settled + 1 })
        (mark_reconciled_settled r (some transaction) payer c.owner at db)

  abbrev apply_failed : SettlementRecord → Option String → Counting
  apply_failed r reason stats db = elim (r.status == SettlementStatus.settle_in_progress) [
    | true ↦ mark_unknown r (or_else reason (default_unknown_reason r)) stats db
    | false ↦
        counted (record stats { failed = stats.failed + 1 })
          (mark_reconciled_failed r reason c.owner at db)
  ]

  abbrev apply_unknown : SettlementRecord → Option String → Counting
  apply_unknown r reason stats db =
      elim (is_in r.status
        (SettlementStatus.submitted ∷ SettlementStatus.settle_in_progress ∷ [])) [
          | true ↦
              counted (record stats { marked_unknown = stats.marked_unknown + 1 })
                (mark_reconciled_unknown r (or_else reason (default_unknown_reason r)) c.owner at
                  db)
          | false ↦ mark_manual_or_pending now r reason stats db
        ]

  abbrev pub apply_by_status :
      SettlementRecord → ReconciliationOutcome → ReconciliationStatus → Counting
  apply_by_status r o ReconciliationStatus.settled =
      apply_settled r (or_else o.transaction (or_else r.transaction none)) (or_else o.payer r.payer)
  apply_by_status r o ReconciliationStatus.failed_final = apply_failed r o.error_reason
  apply_by_status r o ReconciliationStatus.unknown = apply_unknown r o.error_reason
  apply_by_status r o ReconciliationStatus.manual_review =
      mark_manual_or_pending (now + c.manual_review_after) r o.error_reason
  apply_by_status r o ReconciliationStatus.pending = mark_manual_or_pending now r o.error_reason

  -- `_apply_outcome`
  unfoldable pub apply_outcome : SettlementRecord → ReconciliationOutcome → Counting
  unfolding mark_manual_or_pending
  apply_outcome r o = apply_by_status r o o.status

  -- the `except` branch of the provider's call
  abbrev pub after_provider_error : SettlementRecord → Counting
  after_provider_error r stats db = elim (r.status == SettlementStatus.settle_in_progress) [
    | true ↦
        caught (one_error stats)
          (mark_unknown r (some "provider_reconciliation_exception") (one_error stats) db)
    | false ↦ (ok (one_error stats), db)
  ]

  abbrev pub after_provider : SettlementRecord → Result ReconciliationOutcome → Counting
  after_provider r (err e) stats db = after_provider_error r stats db
  after_provider r (ok o) stats db = caught stats (apply_outcome r o stats db)

  -- `_reconcile_with_provider`
  abbrev pub reconcile_with_provider : Provider → SettlementRecord → Result ReconciliationOutcome
  reconcile_with_provider provider r = elim provider.reconcile_settlement [
    | none ↦ ok (record {
      status = ReconciliationStatus.pending;
      transaction = none;
      payer = none;
      error_reason = some "provider_reconciliation_unavailable";
    })
    | some reconcile ↦ reconcile r
  ]

  abbrev pub reconcile_claimed : Option Provider → SettlementRecord → Counting
  reconcile_claimed none r =
      mark_manual_or_pending now r (some "reconciliation_provider_not_registered")
  reconcile_claimed (some provider) r = after_provider r (reconcile_with_provider provider r)

  -- `_stale_before_for_status`
  abbrev stale_before_for_status : SettlementStatus → ℕ
  stale_before_for_status SettlementStatus.settle_in_progress = now - c.stale_in_progress_after
  stale_before_for_status SettlementStatus.submitted = now - c.stale_submitted_after
  stale_before_for_status _ = now - c.stale_unknown_after

  -- `_claim`
  unfoldable pub claim : SettlementRecord → Action Database (Option SettlementRecord)
  claim r db = elim r.record_id [
    | none ↦ (ok none, db)
    | some id ↦
        claim_reconciliation_record id c.owner (now + c.lease_seconds) (r.status ∷ [])
          (some (stale_before_for_status r.status)) at db
  ]

  module _ (provider_by_name : String → Option Provider) where
    abbrev pub after_claim :
        ReconciliationRunStats
        → Result (Option SettlementRecord) × Database
        → Result ReconciliationRunStats × Database
    after_claim stats (err e, db) = (err e, db)
    after_claim stats (ok none, db) = (ok (record stats { skipped = stats.skipped + 1 }), db)
    after_claim stats (ok (some r), db) =
        reconcile_claimed (provider_by_name r.provider) r
          (record stats { claimed = stats.claimed + 1 }) db

    -- the loop's body
    unfoldable pub reconcile_record : SettlementRecord → Counting
    unfolding claim apply_outcome
    reconcile_record r stats db = after_claim stats (claim r db)

    unfoldable pub reconcile_all : List SettlementRecord → Counting
    unfolding reconcile_record
    reconcile_all [] stats db = (ok stats, db)
    reconcile_all (r ∷ rs) stats db =
        continue (λ stats' db'. reconcile_all rs stats' db') (reconcile_record r stats db)

    unfoldable pub run_once : Action Database ReconciliationRunStats
    run_once db =
        let candidates = scan_candidates c now at db in
        reconcile_all candidates (record no_stats { scanned = length candidates }) db
