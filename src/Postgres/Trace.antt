-- ===== src/Postgres/Trace.antt =====
-- Any interleaving of calls of `PostgresSettlementStore` by engines, reconcilers and operators: each
-- call is one step of the database.
use x402_hosted_facilitator.Common.{
  ℕ, String, ◌≡◌, inl, inr, Option, some, List, [], ◌∷◌, arith, nat_eq, Option-cases,
}
use x402_hosted_facilitator.Settlement.{SettlementRecord}
use x402_hosted_facilitator.Settlement.Status.{SettlementStatus, SettlementAttemptStatus, status_eq}
use x402_hosted_facilitator.Postgres.{Database}
use x402_hosted_facilitator.Postgres.Claim.{start_settle_attempt, finish_settle_attempt}
use x402_hosted_facilitator.Postgres.Finalize.{
  Outcome, mark_settled, mark_submitted, mark_settle_failed, mark_unknown,
  mark_record_and_finish_settle_attempt, expected_statuses,
}
use x402_hosted_facilitator.Postgres.Lease.{
  claim_reconciliation_record, release_reconciliation_record,
}
use x402_hosted_facilitator.Postgres.Reconcile.{
  mark_reconciled_settled, mark_reconciled_failed, mark_reconciled_unknown, mark_manual_review,
}
use x402_hosted_facilitator.Postgres.Operator.{
  claim_locked, release_locked, manual_review_locked, with_locked,
}
use x402_hosted_facilitator.Postgres.Steps.{
  DatabaseStep, DatabaseStep-refl, IsAllowed, start-DatabaseStep, finish-DatabaseStep,
  update_record-DatabaseStep, finalize_from-DatabaseStep, update_reconciliation_record-DatabaseStep,
  claim_lease-DatabaseStep, release-DatabaseStep,
}
use x402_hosted_facilitator.Postgres.OperatorSteps.{
  claim_locked-DatabaseStep, release_locked-DatabaseStep, manual_review_locked-DatabaseStep,
  with_locked-DatabaseStep,
}

-- The calls but for the claim of a settlement. A caller passes the record object that it holds,
-- whatever it holds.
pub data Call : Type 0 where
  start : SettlementRecord → String → ℕ → Call
  finish : ℕ → SettlementAttemptStatus → Option String → Option String → ℕ → Call
  finalize : SettlementRecord → ℕ → SettlementAttemptStatus → Outcome → ℕ → Call
  settle submit : SettlementRecord → Option String → Option String → ℕ → Call
  fail lose : SettlementRecord → Option String → ℕ → Call
  lease : ℕ → String → ℕ → List SettlementStatus → Option ℕ → ℕ → Call
  release : ℕ → String → ℕ → Call
  reconciled_settled : SettlementRecord → Option String → Option String → String → ℕ → Call
  reconciled_failed reconciled_unknown manual : SettlementRecord → Option String → String → ℕ → Call
  operator_claim : ℕ → String → ℕ → ℕ → ℕ → Call
  operator_release operator_review : ℕ → String → ℕ → Call

unfoldable pub apply : Call → Database → Database
apply (start r trace_id now) db = (start_settle_attempt r trace_id now db).1
apply (finish id status transaction reason now) db =
    finish_settle_attempt id status transaction reason now db
apply (finalize r attempt_id attempt_status o now) db =
    (mark_record_and_finish_settle_attempt r attempt_id attempt_status o now db).1
apply (settle r transaction payer now) db = (mark_settled r transaction payer now db).1
apply (submit r transaction payer now) db = (mark_submitted r transaction payer now db).1
apply (fail r reason now) db = (mark_settle_failed r reason now db).1
apply (lose r reason now) db = (mark_unknown r reason now db).1
apply (lease id owner until eligible stale now) db =
    (claim_reconciliation_record id owner until eligible stale now db).1
apply (release id owner now) db = (release_reconciliation_record id owner now db).1
apply (reconciled_settled r transaction payer owner now) db =
    (mark_reconciled_settled r transaction payer owner now db).1
apply (reconciled_failed r reason owner now) db = (mark_reconciled_failed r reason owner now db).1
apply (reconciled_unknown r reason owner now) db = (mark_reconciled_unknown r reason owner now db).1
apply (manual r reason owner now) db = (mark_manual_review r reason owner now db).1
apply (operator_claim id owner until stale now) db =
    (with_locked id (λ r. claim_locked r owner until stale now) db).1
apply (operator_release id owner now) db = (with_locked id (λ r. release_locked r owner now) db).1
apply (operator_review id owner now) db =
    (with_locked id (λ r. manual_review_locked r owner now) db).1

expected_statuses-IsAllowed :
    (status : SettlementStatus) (expected : List SettlementStatus)
    → expected_statuses status ≡ some expected
    → IsAllowed expected status
expected_statuses-IsAllowed status expected e s h = ground arith

finalize-DatabaseStep :
    (r : SettlementRecord) (attempt_id : ℕ) (attempt_status : SettlementAttemptStatus) (o : Outcome)
    (now : ℕ) (db : Database)
    → DatabaseStep db (mark_record_and_finish_settle_attempt r attempt_id attempt_status o now db).1
unfolding mark_record_and_finish_settle_attempt
finalize-DatabaseStep r attempt_id attempt_status o now db =
    elim (Option-cases (expected_statuses o.status)) [
      | inl e ↦ rw e (DatabaseStep-refl db)
      | inr (expected, e) ↦ rw e (
          finalize_from-DatabaseStep r expected o now
            (expected_statuses-IsAllowed o.status expected e) db attempt_id attempt_status)
    ]

settle-IsAllowed :
    IsAllowed
      (SettlementStatus.settle_in_progress ∷ SettlementStatus.submitted ∷ [])
      SettlementStatus.settled
settle-IsAllowed s h = ground arith

submit-IsAllowed : IsAllowed (SettlementStatus.settle_in_progress ∷ []) SettlementStatus.submitted
submit-IsAllowed s h = ground arith

fail-IsAllowed : IsAllowed (SettlementStatus.settle_in_progress ∷ []) SettlementStatus.settle_failed
fail-IsAllowed s h = ground arith

lose-IsAllowed :
    IsAllowed
      (SettlementStatus.settle_in_progress ∷ SettlementStatus.submitted ∷ [])
      SettlementStatus.unknown
lose-IsAllowed s h = ground arith

reconciled_settled-IsAllowed :
    IsAllowed
      (SettlementStatus.unknown ∷ SettlementStatus.submitted ∷ SettlementStatus.settle_in_progress
        ∷ [])
      SettlementStatus.settled
reconciled_settled-IsAllowed s h = ground arith

reconciled_failed-IsAllowed :
    IsAllowed
      (SettlementStatus.unknown ∷ SettlementStatus.settle_in_progress ∷ [])
      SettlementStatus.settle_failed
reconciled_failed-IsAllowed s h = ground arith

reconciled_unknown-IsAllowed :
    IsAllowed
      (SettlementStatus.submitted ∷ SettlementStatus.settle_in_progress ∷ [])
      SettlementStatus.unknown
reconciled_unknown-IsAllowed s h = ground arith

manual-IsAllowed : IsAllowed (SettlementStatus.unknown ∷ []) SettlementStatus.manual_review
manual-IsAllowed s h = ground arith

pub apply-DatabaseStep : (c : Call) (db : Database) → DatabaseStep db (apply c db)
unfolding apply mark_settled mark_submitted mark_settle_failed mark_unknown mark_reconciled_settled
    mark_reconciled_failed mark_reconciled_unknown mark_manual_review
apply-DatabaseStep (start r trace_id now) db = start-DatabaseStep r trace_id now db
apply-DatabaseStep (finish id status transaction reason now) db =
    finish-DatabaseStep id status transaction reason now db
apply-DatabaseStep (finalize r attempt_id attempt_status o now) db =
    finalize-DatabaseStep r attempt_id attempt_status o now db
apply-DatabaseStep (settle r transaction payer now) db =
    update_record-DatabaseStep r _ _ now settle-IsAllowed db
apply-DatabaseStep (submit r transaction payer now) db =
    update_record-DatabaseStep r _ _ now submit-IsAllowed db
apply-DatabaseStep (fail r reason now) db = update_record-DatabaseStep r _ _ now fail-IsAllowed db
apply-DatabaseStep (lose r reason now) db = update_record-DatabaseStep r _ _ now lose-IsAllowed db
apply-DatabaseStep (lease id owner until eligible stale now) db =
    claim_lease-DatabaseStep id owner until eligible stale now db
apply-DatabaseStep (release id owner now) db = release-DatabaseStep id owner now db
apply-DatabaseStep (reconciled_settled r transaction payer owner now) db =
    update_reconciliation_record-DatabaseStep r _ _ now reconciled_settled-IsAllowed db owner
apply-DatabaseStep (reconciled_failed r reason owner now) db =
    update_reconciliation_record-DatabaseStep r _ _ now reconciled_failed-IsAllowed db owner
apply-DatabaseStep (reconciled_unknown r reason owner now) db =
    update_reconciliation_record-DatabaseStep r _ _ now reconciled_unknown-IsAllowed db owner
apply-DatabaseStep (manual r reason owner now) db =
    update_reconciliation_record-DatabaseStep r _ _ now manual-IsAllowed db owner
apply-DatabaseStep (operator_claim id owner until stale now) db =
    with_locked-DatabaseStep id _ db (λ r. claim_locked-DatabaseStep r owner now db until stale)
apply-DatabaseStep (operator_release id owner now) db =
    with_locked-DatabaseStep id _ db (λ r. release_locked-DatabaseStep r owner now db)
apply-DatabaseStep (operator_review id owner now) db =
    with_locked-DatabaseStep id _ db (λ r. manual_review_locked-DatabaseStep r owner now db)
