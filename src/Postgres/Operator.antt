-- ===== src/Postgres/Operator.antt =====
-- What an operator does to a record that the transaction has locked: the three
-- `_*_reconciliation_record_locked` methods of src/hosted_facilitator/hosted/postgres.py.
use x402_hosted_facilitator.Common.{
  ℕ, String, Bool, not, ◌&&◌, Option, none, some, [], ◌∷◌, ok, err, Error, nat_eq, option_eq,
  string_eq, key_error, runtime_error, Action, Result, ◌==◌, if◌then◌else◌, ltb, find,
}
use x402_hosted_facilitator.Settlement.{SettlementRecord}
use x402_hosted_facilitator.Settlement.Status.{SettlementStatus, status_eq, is_in}
use x402_hosted_facilitator.Postgres.{Database, update, returning, write_records}
use x402_hosted_facilitator.Postgres.Claim.{has_id}
use x402_hosted_facilitator.Postgres.Lease.{is_free, owned, clear_lease, set_lease}
use x402_hosted_facilitator.Postgres.Reconcile.{finish_started_attempts, leased}

abbrev pub not_claimable : Error
not_claimable = runtime_error "Settlement record is not claimable"

abbrev pub not_leased_by_operator : Error
not_leased_by_operator = runtime_error "Settlement record is not leased by this operator"

abbrev pub must_be_claimed : Error
must_be_claimed = runtime_error "Settlement record must be claimed by this operator"

-- UPDATE .. RETURNING *, and the error if it returns no row
abbrev pub update_or_raise :
    Error
    → (SettlementRecord → Bool)
    → (SettlementRecord → SettlementRecord)
    → Action Database SettlementRecord
update_or_raise e test change db = elim (returning test change db.settlement_records) [
  | none ↦ (err e, db)
  | some r ↦ (ok r, write_records (update test change db.settlement_records) db)
]

-- the operator's lease also moves `updated_at`
abbrev pub set_operator_lease : String → ℕ → ℕ → SettlementRecord → SettlementRecord
set_operator_lease owner lease_until now r =
    let leased = set_lease owner lease_until r in record leased { updated_at = now }

abbrev pub is_active : SettlementStatus → Bool
is_active status =
    is_in status (SettlementStatus.submitted ∷ SettlementStatus.settle_in_progress ∷ [])

-- `_claim_reconciliation_record_locked`
unfoldable pub claim_locked :
    SettlementRecord → String → ℕ → ℕ → ℕ → Action Database SettlementRecord
claim_locked r owner lease_until active_stale_before now db =
    if not (
      is_in r.status (
        SettlementStatus.unknown ∷ SettlementStatus.manual_review ∷ SettlementStatus.submitted
        ∷ SettlementStatus.settle_in_progress ∷ []))
    then (err not_claimable, db)
    else if is_active r.status && ltb active_stale_before r.updated_at
    then (err (runtime_error "Active settlement record is not stale enough to claim"), db)
    else if not (is_free now r)
    then (err not_claimable, db)
    else update_or_raise not_claimable (has_id r.record_id)
        (set_operator_lease owner lease_until now) db

-- `_release_reconciliation_record_locked`
unfoldable pub release_locked : SettlementRecord → String → ℕ → Action Database SettlementRecord
release_locked r owner now db =
    if r.reconciliation_owner == some owner
    then update_or_raise not_leased_by_operator (owned r.record_id owner) (clear_lease now) db
    else (err not_leased_by_operator, db)

abbrev pub reviewed : ℕ → SettlementRecord → SettlementRecord
reviewed now r = record r {
  status = SettlementStatus.manual_review;
  error_reason = some "manual_review_operator_requested";
  updated_at = now;
  reconciliation_owner = none;
  reconciliation_lease_until = none;
}

-- once the record's update went through, its started attempts; a raise rolls back to `db`
abbrev pub after_review :
    SettlementRecord
    → ℕ
    → Database
    → Result SettlementRecord × Database
    → Result SettlementRecord × Database
after_review r now db (err e, db') = (err e, db)
after_review r now db (ok row, db') = (
  ok row,
  finish_started_attempts r.record_id SettlementStatus.manual_review now r.transaction
      (some "manual_review_operator_requested") db',
)

abbrev pub review_leased :
    SettlementRecord → String → Option ℕ → ℕ → Action Database SettlementRecord
review_leased r owner none now db = (err must_be_claimed, db)
review_leased r owner (some lease_until) now db = after_review r now db (
    update_or_raise must_be_claimed
      (leased r.record_id (SettlementStatus.unknown ∷ []) owner lease_until now) (reviewed now) db)

-- `_manual_review_reconciliation_record_locked`
unfoldable pub manual_review_locked :
    SettlementRecord → String → ℕ → Action Database SettlementRecord
unfolding finish_started_attempts
manual_review_locked r owner now db =
    if not (r.status == SettlementStatus.unknown)
    then (err (runtime_error "Only unknown settlement records can move to manual review"), db)
    else if r.reconciliation_owner == some owner
    then review_leased r owner r.reconciliation_lease_until now db
    else (err must_be_claimed, db)

-- SELECT * FROM settlement_records WHERE id = %s FOR UPDATE, then the action
unfoldable pub with_locked :
    ℕ → (SettlementRecord → Action Database SettlementRecord) → Action Database SettlementRecord
with_locked id action db = elim (find (has_id (some id)) db.settlement_records) [
  | none ↦ (err (key_error "record_id"), db)
  | some r ↦ action r db
]
