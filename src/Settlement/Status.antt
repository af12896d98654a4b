-- ===== src/Settlement/Status.antt =====
-- The enumerations of src/hosted_facilitator/hosted/storage.py and `_claim_for_status`.
use x402_hosted_facilitator.Common.{
  ℕ, ◌≡◌, ◌↔◌, Bool, true, false, ◌||◌, List, [], ◌∷◌, arith, Eq, nat_eq, ◌==◌, if◌then◌else◌,
}

pub data SettlementStatus : Type 0 where
  received settle_in_progress submitted settled settle_failed unknown reconciled : SettlementStatus
  manual_review : SettlementStatus

pub data SettlementClaim : Type 0 where
  claimed duplicate_in_flight duplicate_final duplicate_unknown : SettlementClaim
  duplicate_manual_review : SettlementClaim

pub data SettlementAttemptStatus : Type 0 where
  started submitted settled failed unknown : SettlementAttemptStatus

-- The members of an enumeration are told apart by their position.
abbrev pub status_position : SettlementStatus → ℕ
status_position SettlementStatus.received = 0
status_position SettlementStatus.settle_in_progress = 1
status_position SettlementStatus.submitted = 2
status_position SettlementStatus.settled = 3
status_position SettlementStatus.settle_failed = 4
status_position SettlementStatus.unknown = 5
status_position SettlementStatus.reconciled = 6
status_position SettlementStatus.manual_review = 7

abbrev pub status_beq : SettlementStatus → SettlementStatus → Bool
status_beq a b = status_position a == status_position b

pub status_beq_iff : (a b : SettlementStatus) → (status_beq a b ≡ true) ↔ (a ≡ b)
status_beq_iff a b = ground arith

instance abbrev pub status_eq : Eq SettlementStatus
status_eq = record { beq = status_beq; beq_iff = status_beq_iff }

abbrev pub attempt_position : SettlementAttemptStatus → ℕ
attempt_position SettlementAttemptStatus.started = 0
attempt_position SettlementAttemptStatus.submitted = 1
attempt_position SettlementAttemptStatus.settled = 2
attempt_position SettlementAttemptStatus.failed = 3
attempt_position SettlementAttemptStatus.unknown = 4

abbrev pub attempt_beq : SettlementAttemptStatus → SettlementAttemptStatus → Bool
attempt_beq a b = attempt_position a == attempt_position b

pub attempt_beq_iff : (a b : SettlementAttemptStatus) → (attempt_beq a b ≡ true) ↔ (a ≡ b)
attempt_beq_iff a b = ground arith

instance abbrev pub attempt_eq : Eq SettlementAttemptStatus
attempt_eq = record { beq = attempt_beq; beq_iff = attempt_beq_iff }

-- `status in statuses`, `status = ANY(statuses)`
abbrev pub is_in : SettlementStatus → List SettlementStatus → Bool
is_in s [] = false
is_in s (t ∷ ts) = s == t || is_in s ts

-- `_claim_for_status`
unfoldable pub claim_for_status : SettlementStatus → SettlementClaim
claim_for_status status =
    if is_in status (SettlementStatus.settled ∷ SettlementStatus.settle_failed ∷ [])
    then SettlementClaim.duplicate_final
    else if is_in status
        (SettlementStatus.unknown ∷ SettlementStatus.submitted ∷ SettlementStatus.reconciled ∷ [])
    then SettlementClaim.duplicate_unknown
    else if status == SettlementStatus.manual_review
    then SettlementClaim.duplicate_manual_review
    else SettlementClaim.duplicate_in_flight
