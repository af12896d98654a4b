-- ===== src/Engine/Answers.antt =====
-- What the engine answers for a settlement that exists: `_cached_settlement`,
-- `_claim_for_existing_status` and `_provider_status` (src/hosted_facilitator/hosted/engine.py), over
-- the outcomes of src/hosted_facilitator/hosted/schemas.py.
use x402_hosted_facilitator.Common.{
  String, Bool, true, false, Option, none, some, ◌≡◌, ◌↔◌, refl, is_some, arith,
}
use x402_hosted_facilitator.Settlement.{SettlementRecord}
use x402_hosted_facilitator.Settlement.Status.{SettlementStatus, SettlementClaim, claim_for_status}

pub data ProviderSettlementStatus : Type 0 where
  settled submitted failed_final unknown : ProviderSettlementStatus

pub record SettleOutcome : Type 0 where
  pub success : Bool
  pub transaction : Option String
  pub network : Option String
  pub payer : Option String
  pub error_reason : Option String
  pub settlement_status : Option ProviderSettlementStatus
  pub trace_id : Option String
  pub provider : Option String
  pub duplicate : Option Bool

-- an outcome whose last three fields the engine has yet to set
abbrev pub outcome :
    Bool
    → Option String
    → Option String
    → Option String
    → Option String
    → ProviderSettlementStatus
    → SettleOutcome
outcome success transaction network payer error_reason status = record {
  success = success;
  transaction = transaction;
  network = network;
  payer = payer;
  error_reason = error_reason;
  settlement_status = some status;
  trace_id = none;
  provider = none;
  duplicate = none;
}

-- the dictionary of error reasons by claim
abbrev pub duplicate_reason : SettlementClaim → String
duplicate_reason SettlementClaim.duplicate_in_flight = "settlement_in_progress"
duplicate_reason SettlementClaim.duplicate_unknown = "settlement_outcome_unknown"
duplicate_reason SettlementClaim.duplicate_manual_review = "settlement_manual_review"
duplicate_reason _ = "duplicate_settlement"

abbrev pub cached_by_status : SettlementRecord → SettlementStatus → SettlementClaim → SettleOutcome
cached_by_status r SettlementStatus.settled claim =
    outcome true r.transaction r.network r.payer none ProviderSettlementStatus.settled
cached_by_status r SettlementStatus.settle_failed claim =
    outcome false none r.network r.payer r.error_reason ProviderSettlementStatus.failed_final
cached_by_status r SettlementStatus.submitted claim =
    outcome false r.transaction r.network r.payer (some "settlement_submitted")
      ProviderSettlementStatus.submitted
cached_by_status r _ claim =
    outcome false none r.network r.payer (some (duplicate_reason claim))
      ProviderSettlementStatus.unknown

-- `_cached_settlement`
unfoldable pub cached_settlement : SettlementRecord → SettlementClaim → Option SettleOutcome
cached_settlement r SettlementClaim.claimed = none
cached_settlement r claim = some (cached_by_status r r.status claim)

-- `_claim_for_existing_status`
unfoldable pub claim_for_existing_status : SettlementStatus → SettlementClaim
claim_for_existing_status SettlementStatus.settled = SettlementClaim.duplicate_final
claim_for_existing_status SettlementStatus.settle_failed = SettlementClaim.duplicate_final
claim_for_existing_status SettlementStatus.unknown = SettlementClaim.duplicate_unknown
claim_for_existing_status SettlementStatus.submitted = SettlementClaim.duplicate_unknown
claim_for_existing_status SettlementStatus.reconciled = SettlementClaim.duplicate_unknown
claim_for_existing_status SettlementStatus.manual_review = SettlementClaim.duplicate_manual_review
claim_for_existing_status _ = SettlementClaim.duplicate_in_flight

abbrev pub success_of : Option SettleOutcome → Bool
success_of none = false
success_of (some o) = o.success

-- `_provider_status`
abbrev pub provider_status : SettleOutcome → ProviderSettlementStatus
provider_status o = elim o.settlement_status [
  | some status ↦ status
  | none ↦ elim o.success [
    | true ↦ ProviderSettlementStatus.settled
    | false ↦ ProviderSettlementStatus.unknown
  ]
]

same_claim : (s : SettlementStatus) → claim_for_existing_status s ≡ claim_for_status s
unfolding claim_for_existing_status claim_for_status
same_claim s = ground arith

pub duplicate-cached :
    (r : SettlementRecord) (s : SettlementStatus)
    → cached_settlement r (claim_for_status s)
      ≡ some (cached_by_status r r.status (claim_for_status s))
unfolding cached_settlement claim_for_status
duplicate-cached r s = ground arith

success-settled :
    (r : SettlementRecord) (s : SettlementStatus) (claim : SettlementClaim)
    → ((cached_by_status r s claim).success ≡ true) ↔ (s ≡ SettlementStatus.settled)
success-settled r s claim = ground arith

-- settlement_status == ProviderSettlementStatus.SETTLED
abbrev pub is_settled : ProviderSettlementStatus → Bool
is_settled ProviderSettlementStatus.settled = true
is_settled _ = false

-- Of an existing record, under any payment profile: the lookup before a claim and the claim itself
-- classify it alike; there is an answer, and it reports success exactly if the record is settled.
pub duplicate_answer :
    (r : SettlementRecord)
    → (claim_for_existing_status r.status ≡ claim_for_status r.status)
      × (is_some (cached_settlement r (claim_for_status r.status)) ≡ true)
      × ((success_of (cached_settlement r (claim_for_status r.status)) ≡ true)
          ↔ (r.status ≡ SettlementStatus.settled))
duplicate_answer r =
    let cached = duplicate-cached r r.status in
    (
      same_claim r.status,
      rw cached refl,
      rw cached (success-settled r r.status (claim_for_status r.status)),
    )
