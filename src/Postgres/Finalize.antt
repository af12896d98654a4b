-- ===== src/Postgres/Finalize.antt =====
-- The transitions by which the engine ends a settlement: `mark_record_and_finish_settle_attempt`,
-- `_update_record` and the four `mark_*` methods over it
-- (src/hosted_facilitator/hosted/postgres.py).
use x402_hosted_facilitator.Common.{
  ℕ, String, Bool, ◌&&◌, Option, none, some, List, [], ◌∷◌, ok, err, Error, nat_eq, option_eq,
  Result, value_error, runtime_error, Action, ◌==◌, if◌then◌else◌, count_if,
}
use x402_hosted_facilitator.Settlement.{SettlementRecord}
use x402_hosted_facilitator.Settlement.Status.{SettlementStatus, SettlementAttemptStatus, is_in}
use x402_hosted_facilitator.Postgres.{Database, update, write_records}
use x402_hosted_facilitator.Postgres.Claim.{has_id, finish_attempt}

-- The values that a transition writes.
pub record Outcome : Type 0 where
  pub status : SettlementStatus
  pub transaction : Option String
  pub payer : Option String
  pub error_reason : Option String

-- SET status, transaction_hash, payer, error_reason, updated_at, and the lease to NULL
abbrev pub set_outcome : Outcome → ℕ → SettlementRecord → SettlementRecord
set_outcome o now r = record r {
  status = o.status;
  transaction = o.transaction;
  payer = o.payer;
  error_reason = o.error_reason;
  updated_at = now;
  reconciliation_owner = none;
  reconciliation_lease_until = none;
}

-- WHERE id = %s AND status = ANY(%s)
abbrev pub in_status : Option ℕ → List SettlementStatus → SettlementRecord → Bool
in_status id expected r = has_id id r && is_in r.status expected

abbrev pub not_expected : Error
not_expected = runtime_error "Postgres settlement record was not in an expected status"

abbrev pub no_record_id : Error
no_record_id = value_error "settlement record id is required for updates"

-- The statuses from which the engine may move a record to `status`; `none` is a ValueError.
abbrev pub expected_statuses : SettlementStatus → Option (List SettlementStatus)
expected_statuses SettlementStatus.settled =
    some (SettlementStatus.settle_in_progress ∷ SettlementStatus.submitted ∷ [])
expected_statuses SettlementStatus.submitted = some (SettlementStatus.settle_in_progress ∷ [])
expected_statuses SettlementStatus.settle_failed = some (SettlementStatus.settle_in_progress ∷ [])
expected_statuses SettlementStatus.unknown =
    some (SettlementStatus.settle_in_progress ∷ SettlementStatus.submitted ∷ [])
expected_statuses _ = none

-- The update of the row. The caller's record object takes the same values; it is returned.
abbrev pub update_in_status :
    SettlementRecord → List SettlementStatus → Outcome → ℕ → Action Database SettlementRecord
update_in_status r expected o now db =
    let test = in_status r.record_id expected in
    if count_if test db.settlement_records == 0 then (err not_expected, db) else (
      ok (set_outcome o now r),
      write_records (update test (set_outcome o now) db.settlement_records) db,
    )

-- `_update_record`
unfoldable pub update_record :
    SettlementRecord → List SettlementStatus → Outcome → ℕ → Action Database SettlementRecord
update_record r expected o now db = elim r.record_id [
  | none ↦ (err no_record_id, db)
  | some id ↦ update_in_status r expected o now db
]

unfoldable pub mark_settled :
    SettlementRecord → Option String → Option String → ℕ → Action Database SettlementRecord
mark_settled r transaction payer =
    update_record r (SettlementStatus.settle_in_progress ∷ SettlementStatus.submitted ∷ [])
      (record {
        status = SettlementStatus.settled;
        transaction = transaction;
        payer = payer;
        error_reason = none;
      })

unfoldable pub mark_settle_failed :
    SettlementRecord → Option String → ℕ → Action Database SettlementRecord
mark_settle_failed r error_reason =
    update_record r (SettlementStatus.settle_in_progress ∷ []) (record {
      status = SettlementStatus.settle_failed;
      transaction = r.transaction;
      payer = r.payer;
      error_reason = error_reason;
    })

unfoldable pub mark_submitted :
    SettlementRecord → Option String → Option String → ℕ → Action Database SettlementRecord
mark_submitted r transaction payer =
    update_record r (SettlementStatus.settle_in_progress ∷ []) (record {
      status = SettlementStatus.submitted;
      transaction = transaction;
      payer = payer;
      error_reason = none;
    })

unfoldable pub mark_unknown :
    SettlementRecord → Option String → ℕ → Action Database SettlementRecord
mark_unknown r error_reason =
    update_record r (SettlementStatus.settle_in_progress ∷ SettlementStatus.submitted ∷ [])
      (record {
        status = SettlementStatus.unknown;
        transaction = r.transaction;
        payer = r.payer;
        error_reason = error_reason;
      })

-- the attempt of the same transaction, once the record's update went through
abbrev pub then_finish :
    ℕ
    → SettlementAttemptStatus
    → Outcome
    → ℕ
    → Result SettlementRecord × Database
    → Result SettlementRecord × Database
then_finish attempt_id attempt_status o now (err e, db) = (err e, db)
then_finish attempt_id attempt_status o now (ok r, db) =
    (ok r, finish_attempt attempt_id attempt_status o.transaction o.error_reason now db)

abbrev pub finalize_from :
    SettlementRecord
    → ℕ
    → SettlementAttemptStatus
    → Outcome
    → ℕ
    → Option (List SettlementStatus)
    → Action Database SettlementRecord
finalize_from r attempt_id attempt_status o now none db =
    (err (value_error "Unsupported settlement finalization status"), db)
finalize_from r attempt_id attempt_status o now (some expected) db =
    then_finish attempt_id attempt_status o now (update_record r expected o now db)

-- `mark_record_and_finish_settle_attempt`: the record and its attempt in one transaction
unfoldable pub mark_record_and_finish_settle_attempt :
    SettlementRecord → ℕ → SettlementAttemptStatus → Outcome → ℕ → Action Database SettlementRecord
mark_record_and_finish_settle_attempt r attempt_id attempt_status o now =
    finalize_from r attempt_id attempt_status o now (expected_statuses o.status)
