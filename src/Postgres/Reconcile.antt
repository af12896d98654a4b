-- ===== src/Postgres/Reconcile.antt =====
-- The transitions under a reconciliation lease: `_update_reconciliation_record` and the
-- `mark_reconciled_*` methods over it, and the operators' actions on a locked record
-- (src/hosted_facilitator/hosted/postgres.py).
use x402_hosted_facilitator.Common.{
  ℕ, String, Bool, ◌&&◌, Option, none, some, List, [], ◌∷◌, ok, err, Error, nat_eq, option_eq,
  string_eq, value_error, runtime_error, Action, ◌==◌, if◌then◌else◌, ltb, count_if,
}
use x402_hosted_facilitator.Settlement.{SettlementRecord, SettlementAttemptRecord}
use x402_hosted_facilitator.Settlement.Status.{
  SettlementStatus, SettlementAttemptStatus, attempt_eq, status_eq,
}
use x402_hosted_facilitator.Postgres.{Database, update, write_records, write_attempts}
use x402_hosted_facilitator.Postgres.Finalize.{Outcome, set_outcome, in_status, no_record_id}
use x402_hosted_facilitator.Postgres.Lease.{no_owner}

-- `_attempt_status_for_reconciled_status`
abbrev pub attempt_status_for : SettlementStatus → Option SettlementAttemptStatus
attempt_status_for SettlementStatus.settled = some SettlementAttemptStatus.settled
attempt_status_for SettlementStatus.settle_failed = some SettlementAttemptStatus.failed
attempt_status_for SettlementStatus.unknown = some SettlementAttemptStatus.unknown
attempt_status_for SettlementStatus.manual_review = some SettlementAttemptStatus.unknown
attempt_status_for _ = none

-- COALESCE(value, old)
abbrev pub or_old : Option String → Option String → Option String
or_old none old = old
or_old (some value) old = some value

-- WHERE settlement_record_id = %s AND status = 'started'
abbrev pub is_started : Option ℕ → SettlementAttemptRecord → Bool
is_started id a = some a.settlement_record_id == id && a.status == SettlementAttemptStatus.started

abbrev pub close_attempt :
    SettlementAttemptStatus
    → ℕ
    → Option String
    → Option String
    → SettlementAttemptRecord
    → SettlementAttemptRecord
close_attempt status now transaction error_reason a = record a {
  status = status;
  finished_at = some now;
  transaction = or_old transaction a.transaction;
  error_reason = or_old error_reason a.error_reason;
}

-- `_finish_started_attempts_for_reconciliation`
unfoldable pub finish_started_attempts :
    Option ℕ → SettlementStatus → ℕ → Option String → Option String → Database → Database
finish_started_attempts id status now transaction error_reason db =
    elim (attempt_status_for status) [
      | none ↦ db
      | some attempt_status ↦
          write_attempts
            (update (is_started id) (close_attempt attempt_status now transaction error_reason)
              db.settlement_attempts)
            db
    ]

-- WHERE id, status = ANY, reconciliation_owner = owner,
--   reconciliation_lease_until = the lease that was claimed, and it has not run out
abbrev pub leased : Option ℕ → List SettlementStatus → String → ℕ → ℕ → SettlementRecord → Bool
leased id expected owner lease_until now r =
    in_status id expected r
    && (r.reconciliation_owner == some owner
        && (r.reconciliation_lease_until == some lease_until && ltb now lease_until))

abbrev pub not_leased : Error
not_leased = runtime_error "Postgres settlement record was not leased in an expected status"

abbrev pub update_leased :
    SettlementRecord
    → List SettlementStatus
    → Outcome
    → String
    → ℕ
    → ℕ
    → Action Database SettlementRecord
update_leased r expected o owner lease_until now db =
    let test = leased r.record_id expected owner lease_until now in
    if count_if test db.settlement_records == 0 then (err not_leased, db) else (
      ok (set_outcome o now r),
      finish_started_attempts r.record_id o.status now o.transaction o.error_reason
          (write_records (update test (set_outcome o now) db.settlement_records) db),
    )

abbrev pub update_under_lease :
    SettlementRecord
    → List SettlementStatus
    → Outcome
    → String
    → Option ℕ
    → ℕ
    → Action Database SettlementRecord
update_under_lease r expected o owner none now db =
    (err (value_error "claimed reconciliation lease is required for updates"), db)
update_under_lease r expected o owner (some lease_until) now db =
    update_leased r expected o owner lease_until now db

abbrev pub update_owned :
    SettlementRecord
    → List SettlementStatus
    → Outcome
    → String
    → Option ℕ
    → ℕ
    → Action Database SettlementRecord
update_owned r expected o owner none now db = (err no_record_id, db)
update_owned r expected o owner (some id) now db =
    if owner == ""
    then (err no_owner, db)
    else update_under_lease r expected o owner r.reconciliation_lease_until now db

-- `_update_reconciliation_record`
unfoldable pub update_reconciliation_record :
    SettlementRecord
    → List SettlementStatus
    → Outcome
    → String
    → ℕ
    → Action Database SettlementRecord
unfolding finish_started_attempts
update_reconciliation_record r expected o owner now =
    update_owned r expected o owner r.record_id now

unfoldable pub mark_reconciled_settled :
    SettlementRecord → Option String → Option String → String → ℕ → Action Database SettlementRecord
mark_reconciled_settled r transaction payer =
    update_reconciliation_record r
      (SettlementStatus.unknown ∷ SettlementStatus.submitted ∷ SettlementStatus.settle_in_progress
        ∷ [])
      (record {
        status = SettlementStatus.settled;
        transaction = transaction;
        payer = payer;
        error_reason = none;
      })

unfoldable pub mark_reconciled_failed :
    SettlementRecord → Option String → String → ℕ → Action Database SettlementRecord
mark_reconciled_failed r error_reason =
    update_reconciliation_record r
      (SettlementStatus.unknown ∷ SettlementStatus.settle_in_progress ∷ [])
      (record {
        status = SettlementStatus.settle_failed;
        transaction = r.transaction;
        payer = r.payer;
        error_reason = error_reason;
      })

unfoldable pub mark_reconciled_unknown :
    SettlementRecord → Option String → String → ℕ → Action Database SettlementRecord
mark_reconciled_unknown r error_reason =
    update_reconciliation_record r
      (SettlementStatus.submitted ∷ SettlementStatus.settle_in_progress ∷ [])
      (record {
        status = SettlementStatus.unknown;
        transaction = r.transaction;
        payer = r.payer;
        error_reason = error_reason;
      })

unfoldable pub mark_manual_review :
    SettlementRecord → Option String → String → ℕ → Action Database SettlementRecord
mark_manual_review r error_reason =
    update_reconciliation_record r (SettlementStatus.unknown ∷ []) (record {
      status = SettlementStatus.manual_review;
      transaction = r.transaction;
      payer = r.payer;
      error_reason = error_reason;
    })
