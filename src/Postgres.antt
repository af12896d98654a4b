-- ===== src/Postgres.antt =====
-- The tables of src/hosted_facilitator/hosted/postgres.py that `PostgresSettlementStore` keeps, and
-- the meaning of the SQL that it sends. A statement, or a transaction of several, is one step; what
-- a raised exception rolls back is never written. Rows stand in the order of their ids, and a
-- `SELECT` with no `ORDER BY` reads them in that order.
pub mod Payment
pub mod Claim
pub mod Finalize
pub mod Lease
pub mod Reconcile
pub mod Operator
pub mod Transition
pub mod Steps
pub mod OperatorSteps
pub mod Trace
pub mod Lifecycle
pub mod Once
pub mod Leases
pub mod Updates
pub mod Holder
use x402_hosted_facilitator.Common.{
  ℕ, String, Bool, Option, none, some, List, [], ◌∷◌, ◌==◌, if◌then◌else◌, find,
}
use x402_hosted_facilitator.Settlement.{SettlementRecord, SettlementAttemptRecord}

pub record Database : Type 0 where
  pub settlement_records : List SettlementRecord
  pub settlement_attempts : List SettlementAttemptRecord
  pub next_record_id : ℕ  -- the sequence of `settlement_records.id`
  pub next_attempt_id : ℕ  -- the sequence of `settlement_attempts.id`

abbrev pub empty : Database
empty = record {
  settlement_records = [];
  settlement_attempts = [];
  next_record_id = 1;
  next_attempt_id = 1;
}

-- UPDATE ... SET (change) WHERE (test)
abbrev pub update {ℓ} : {A : Type ℓ} → (A → Bool) → (A → A) → List A → List A
update test change [] = []
update test change (r ∷ rs) = (if test r then change r else r) ∷ update test change rs

-- the first row of UPDATE ... RETURNING *
abbrev pub returning {ℓ} : {A : Type ℓ} → (A → Bool) → (A → A) → List A → Option A
returning test change rs = elim (find test rs) [ none ↦ none | some r ↦ some (change r) ]

abbrev pub write_records : List SettlementRecord → Database → Database
write_records rs db = record db { settlement_records = rs }

abbrev pub write_attempts : List SettlementAttemptRecord → Database → Database
write_attempts rs db = record db { settlement_attempts = rs }
