-- ===== src/Settlement.antt =====
-- The settlement data of src/hosted_facilitator/hosted/storage.py: statuses, claims, records and
-- attempts. Times (`datetime`) are natural numbers of one unit.
pub mod Redaction
pub mod Status
pub mod Identity
use x402_hosted_facilitator.Common.{ℕ, String, Option}
use x402_hosted_facilitator.Json.{Fields}
use Status.{SettlementStatus, SettlementAttemptStatus}

pub record SettlementRecord : Type 0 where
  pub record_id : Option ℕ
  pub seller_account_id : String
  pub fingerprint : String
  pub provider : String
  pub scheme : Option String
  pub network : Option String
  pub status : SettlementStatus
  pub trace_id : Option String
  pub transaction : Option String
  pub payer : Option String
  pub error_reason : Option String
  pub created_at : ℕ
  pub updated_at : ℕ
  pub raw_requirements : Fields
  pub reconciliation_owner : Option String
  pub reconciliation_lease_until : Option ℕ
  pub reconciliation_attempts : ℕ
  pub payment_profile_id : String
  pub duplicate_claims : ℕ
  pub last_duplicate_at : Option ℕ

pub record SettlementAttemptRecord : Type 0 where
  pub attempt_id : ℕ
  pub settlement_record_id : ℕ
  pub trace_id : Option String
  pub status : SettlementAttemptStatus
  pub started_at : ℕ
  pub finished_at : Option ℕ
  pub transaction : Option String
  pub error_reason : Option String

-- The keyword arguments of `claim_for_settlement`.
pub record ClaimRequest : Type 0 where
  pub seller_account_id : String
  pub payment_profile_id : String
  pub fingerprint : String
  pub provider : String
  pub scheme : Option String
  pub network : Option String
  pub trace_id : String
  pub raw_requirements : Fields
