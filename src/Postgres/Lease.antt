-- ===== src/Postgres/Lease.antt =====
-- Reconciliation leases: `list_reconciliation_candidates`, `claim_reconciliation_record`,
-- `release_reconciliation_record` and the operators' locked variants
-- (src/hosted_facilitator/hosted/postgres.py).
use x402_hosted_facilitator.Common.{
  ℕ, ◌+◌, String, Bool, true, ◌&&◌, Option, none, some, List, [], ◌∷◌, ok, err, Error, nat_eq,
  option_eq, string_eq, value_error, Action, ◌==◌, if◌then◌else◌, leb, filter, take,
}
use x402_hosted_facilitator.Settlement.{SettlementRecord}
use x402_hosted_facilitator.Settlement.Status.{SettlementStatus, is_in}
use x402_hosted_facilitator.Postgres.{Database, update, returning, write_records}
use x402_hosted_facilitator.Postgres.Claim.{has_id}
use x402_hosted_facilitator.Common.Sort.{sort}

-- reconciliation_lease_until IS NULL OR reconciliation_lease_until <= now
abbrev pub is_free : ℕ → SettlementRecord → Bool
is_free now r = elim r.reconciliation_lease_until [ none ↦ true | some t ↦ leb t now ]

-- %s::timestamptz IS NULL OR updated_at <= %s::timestamptz
abbrev pub is_stale : Option ℕ → SettlementRecord → Bool
is_stale none r = true
is_stale (some t) r = leb r.updated_at t

-- ORDER BY updated_at ASC, id ASC (of rows that stand in the order of their ids)
abbrev pub older : SettlementRecord → SettlementRecord → Bool
older r t = leb r.updated_at t.updated_at

-- `list_reconciliation_candidates`, LIST_RECONCILIATION_CANDIDATES_SQL
unfoldable pub list_reconciliation_candidates :
    List SettlementStatus → ℕ → ℕ → ℕ → Database → List SettlementRecord
list_reconciliation_candidates [] stale_before limit now db = []
list_reconciliation_candidates (status ∷ statuses) stale_before limit now db = take limit (
    sort older (
      filter
        (λ r.
          is_in r.status (status ∷ statuses) && (is_stale (some stale_before) r && is_free now r))
        db.settlement_records))

abbrev pub no_owner : Error
no_owner = value_error "reconciliation owner is required"

-- CLAIM_RECONCILIATION_RECORD_SQL's WHERE
abbrev pub claimable : ℕ → List SettlementStatus → Option ℕ → ℕ → SettlementRecord → Bool
claimable id eligible stale_before now r =
    has_id (some id) r && (is_in r.status eligible && (is_stale stale_before r && is_free now r))

-- its SET, which leaves `updated_at` alone
abbrev pub set_lease : String → ℕ → SettlementRecord → SettlementRecord
set_lease owner lease_until r = record r {
  reconciliation_owner = some owner;
  reconciliation_lease_until = some lease_until;
  reconciliation_attempts = r.reconciliation_attempts + 1;
}

abbrev pub claim_lease :
    ℕ
    → String
    → ℕ
    → List SettlementStatus
    → Option ℕ
    → ℕ
    → Action Database (Option SettlementRecord)
claim_lease id owner lease_until eligible stale_before now db =
    let test = claimable id eligible stale_before now in
    (
      ok (returning test (set_lease owner lease_until) db.settlement_records),
      write_records (update test (set_lease owner lease_until) db.settlement_records) db,
    )

unfoldable pub claim_reconciliation_record :
    ℕ
    → String
    → ℕ
    → List SettlementStatus
    → Option ℕ
    → ℕ
    → Action Database (Option SettlementRecord)
claim_reconciliation_record id owner lease_until [] stale_before now db =
    if owner == "" then (err no_owner, db) else (ok none, db)
claim_reconciliation_record id owner lease_until (status ∷ statuses) stale_before now db =
    if owner == ""
    then (err no_owner, db)
    else claim_lease id owner lease_until (status ∷ statuses) stale_before now db

-- WHERE id = %s AND reconciliation_owner = %s
abbrev pub owned : Option ℕ → String → SettlementRecord → Bool
owned id owner r = has_id id r && r.reconciliation_owner == some owner

abbrev pub clear_lease : ℕ → SettlementRecord → SettlementRecord
clear_lease now r = record r {
  reconciliation_owner = none;
  reconciliation_lease_until = none;
  updated_at = now;
}

unfoldable pub release_reconciliation_record :
    ℕ → String → ℕ → Action Database (Option SettlementRecord)
release_reconciliation_record id owner now db = if owner == "" then (err no_owner, db) else (
  ok (returning (owned (some id) owner) (clear_lease now) db.settlement_records),
  write_records (update (owned (some id) owner) (clear_lease now) db.settlement_records) db,
)
