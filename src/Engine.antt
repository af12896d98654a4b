-- ===== src/Engine.antt =====
-- `HostedFacilitatorEngine.settle` (src/hosted_facilitator/hosted/engine.py) over the Postgres store,
-- which has both atomic methods. `settle` awaits the provider between the claim and the record's
-- finalization, so it is two steps, with any other step between them: `begin_settle` answers or
-- hands a claimed record to the provider, `complete_settle` takes the provider's answer. The
-- checks of an envelope, the router and the fingerprint are a `Routing`; the rate limiter is the
-- decision that it gives to the request.
pub mod Answers
pub mod Outcomes
pub mod Submission
use x402_hosted_facilitator.Common.{
  ℕ, String, Bool, true, false, Option, none, some, ok, err, Error, Result, Action, string_eq, ◌==◌,
  if◌then◌else◌,
}
use x402_hosted_facilitator.Json
use x402_hosted_facilitator.Json.{Value, Fields}
use x402_hosted_facilitator.Settlement.{SettlementRecord, ClaimRequest}
use x402_hosted_facilitator.Settlement.Status.{
  SettlementStatus, SettlementClaim, SettlementAttemptStatus,
}
use x402_hosted_facilitator.Settlement.Identity.{RecordKey, requested_key}
use x402_hosted_facilitator.Postgres.{Database}
use x402_hosted_facilitator.Postgres.Claim.{
  Claimed, get, get_by_provider_fingerprint, claim_and_start_settle_attempt, start_settle_attempt,
}
use x402_hosted_facilitator.Postgres.Finalize.{Outcome, mark_record_and_finish_settle_attempt}
use x402_hosted_facilitator.RateLimit.{RateLimitDecision}
use x402_hosted_facilitator.RateLimit.Buckets.{
  RateLimitPolicy, RateLimitRequest, HostedRateLimitEndpoint,
}
use Answers.{
  ProviderSettlementStatus, SettleOutcome, outcome, cached_settlement, claim_for_existing_status,
  provider_status, is_settled,
}

pub record FacilitatorEnvelope : Type 0 where
  pub x402_version : ℕ
  pub payment_payload : Fields
  pub payment_requirements : Fields

-- what the engine reads of the seller account and the active payment profile
pub record RequestContext : Type 0 where
  pub trace_id : String
  pub seller_account_id : String
  pub tenant_id : String
  pub payment_profile_id : String
  pub rate_limits : RateLimitPolicy
  pub client_host : Option String

-- What `settle` asks before it touches the store; an `err` or an `Error` is raised.
pub record Routing : Type 0 where
  pub validate_settlement_envelope : FacilitatorEnvelope → Option Error
  pub route : FacilitatorEnvelope → RequestContext → Result String
  pub validate_envelope : String → FacilitatorEnvelope → Option Error
  pub preflight_settlement : String → FacilitatorEnvelope → RequestContext → Option Error
  pub payment_fingerprint : FacilitatorEnvelope → String → Result String

abbrev text_of : Option Value → Option String
text_of (some (Value.str text)) = some text
text_of _ = none

abbrev truthy_text : Option String → Option String
truthy_text none = none
truthy_text (some text) = if text == "" then none else some text

abbrev authorization_of : Option Value → Option Fields
authorization_of (some (Value.dict payload)) = elim (Json.get "authorization" payload) [
  | some (Value.dict authorization) ↦ some authorization
  | _ ↦ none
]
authorization_of _ = none

abbrev dict_of : Option Value → Option Fields
dict_of (some (Value.dict fields)) = some fields
dict_of _ = none

abbrev from_of : Option Fields → Option String
from_of none = none
from_of (some authorization) = truthy_text (text_of (Json.get "from" authorization))

-- `_payer_from_payment_payload`
unfoldable pub payer_from_payment_payload : Fields → Option String
payer_from_payment_payload payload = elim (authorization_of (Json.get "payload" payload)) [
  | some authorization ↦ from_of (some authorization)
  | none ↦ from_of (dict_of (Json.get "authorization" payload))
]

-- `claim_and_start_settle_attempt`'s arguments
abbrev pub claim_request : FacilitatorEnvelope → RequestContext → String → String → ClaimRequest
claim_request envelope context provider fingerprint = record {
  seller_account_id = context.seller_account_id;
  payment_profile_id = context.payment_profile_id;
  fingerprint = fingerprint;
  provider = provider;
  scheme = text_of (Json.get "scheme" envelope.payment_requirements);
  network = text_of (Json.get "network" envelope.payment_requirements);
  trace_id = context.trace_id;
  raw_requirements = envelope.payment_requirements;
}

-- `_enforce_settle_submission_rate_limit`'s request
abbrev pub settle_rate_limit_request : RequestContext → RateLimitRequest
settle_rate_limit_request context = record {
  endpoint = HostedRateLimitEndpoint.settle;
  seller_account_id = some context.seller_account_id;
  tenant_id = some context.tenant_id;
  client_host = context.client_host;
  policy = context.rate_limits;
}

abbrev unless_raised : Option Error → Result ClaimRequest → Result ClaimRequest
unless_raised none result = result
unless_raised (some e) result = err e

abbrev requested :
    FacilitatorEnvelope → RequestContext → String → Result String → Result ClaimRequest
requested envelope context provider (err e) = err e
requested envelope context provider (ok fingerprint) =
    ok (claim_request envelope context provider fingerprint)

abbrev routed : Routing → FacilitatorEnvelope → RequestContext → Result String → Result ClaimRequest
routed routing envelope context (err e) = err e
routed routing envelope context (ok provider) =
    unless_raised (routing.validate_envelope provider envelope) (
      unless_raised (routing.preflight_settlement provider envelope context)
        (requested envelope context provider (routing.payment_fingerprint envelope provider)))

-- the checks, in the order of `settle`, and the claim that passes them
unfoldable pub prepare : Routing → FacilitatorEnvelope → RequestContext → Result ClaimRequest
prepare routing envelope context =
    unless_raised (routing.validate_settlement_envelope envelope)
      (routed routing envelope context (routing.route envelope context))

-- cached.trace_id, cached.provider and cached.duplicate
abbrev pub as_duplicate : ClaimRequest → SettleOutcome → SettleOutcome
as_duplicate q o = record o {
  trace_id = some q.trace_id;
  provider = some q.provider;
  duplicate = some true;
}

-- the record by its key, or else by the provider fingerprint
abbrev existing_record : ClaimRequest → Database → Option SettlementRecord
existing_record q db = elim (get (requested_key q) db) [
  | some r ↦ some r
  | none ↦ get_by_provider_fingerprint q db
]

abbrev cached_of : ClaimRequest → Option SettlementRecord → Option SettleOutcome
cached_of q none = none
cached_of q (some r) = elim (cached_settlement r (claim_for_existing_status r.status)) [
  | none ↦ none
  | some o ↦ some (as_duplicate q o)
]

-- `_cached_existing_settlement`
unfoldable pub cached_existing_settlement : ClaimRequest → Database → Option SettleOutcome
cached_existing_settlement q db = cached_of q (existing_record q db)

-- What the first half of `settle` comes to: an answer, or a record whose payment is submitted to
-- the provider under an attempt.
pub data Begun : Type 0 where
  answered : SettleOutcome → Begun
  submitting : SettlementRecord → ℕ → Begun

-- `if attempt_id is None: attempt_id = self._store.start_settle_attempt(..)`
abbrev submit_with : ClaimRequest → SettlementRecord → ℕ → Option ℕ → Action Database Begun
submit_with q r now (some attempt_id) db = (ok (Begun.submitting r attempt_id), db)
submit_with q r now none db =
    let (started, db') = start_settle_attempt r q.trace_id now db in
    elim started [
      | ok attempt_id ↦ (ok (Begun.submitting r attempt_id), db')
      | err e ↦ (err e, db')
    ]

abbrev answer_or_submit :
    ClaimRequest → SettlementRecord → Option ℕ → ℕ → Option SettleOutcome → Action Database Begun
answer_or_submit q r attempt_id now (some o) db = (ok (Begun.answered (as_duplicate q o)), db)
answer_or_submit q r attempt_id now none db = submit_with q r now attempt_id db

abbrev pub after_claim : ClaimRequest → ℕ → Result Claimed × Database → Result Begun × Database
after_claim q now (err e, db) = (err e, db)
after_claim q now (ok (r, claim, attempt_id), db) =
    answer_or_submit q r attempt_id now (cached_settlement r claim) db

module _ (sha256_hexdigest : String → String) where
  -- `_claim_settlement_record` and what follows it up to the provider's call
  unfoldable pub claim_or_answer : ClaimRequest → ℕ → Action Database Begun
  claim_or_answer q now db =
      after_claim q now (claim_and_start_settle_attempt sha256_hexdigest true q now db)

  abbrev pub refuse_limited : Option SettleOutcome → Action Database Begun
  refuse_limited (some o) db = (ok (Begun.answered o), db)
  refuse_limited none db = (err Error.rate_limited, db)

  -- from the limiter's decision on; `none` is an engine without a limiter
  unfoldable pub admit : ClaimRequest → Option RateLimitDecision → ℕ → Action Database Begun
  unfolding claim_or_answer
  admit q none now db = claim_or_answer q now db
  admit q (some decision) now db = elim decision.allowed [
    | true ↦ claim_or_answer q now db
    | false ↦ refuse_limited (cached_existing_settlement q db) db
  ]

  -- the lookup of an engine with a limiter, before it asks for a decision
  abbrev pub look_up : ClaimRequest → Option RateLimitDecision → Database → Option SettleOutcome
  look_up q none db = none
  look_up q (some decision) db = cached_existing_settlement q db

  abbrev pub answer_or_admit :
      ClaimRequest → Option RateLimitDecision → ℕ → Option SettleOutcome → Action Database Begun
  answer_or_admit q decision now (some o) db = (ok (Begun.answered o), db)
  answer_or_admit q decision now none db = admit q decision now db

  abbrev begin_request : ClaimRequest → Option RateLimitDecision → ℕ → Action Database Begun
  begin_request q decision now db = answer_or_admit q decision now (look_up q decision db) db

  unfoldable pub begin_prepared :
      Option RateLimitDecision → ℕ → Result ClaimRequest → Action Database Begun
  unfolding admit
  begin_prepared decision now (err e) db = (err e, db)
  begin_prepared decision now (ok q) db = begin_request q decision now db

  unfoldable pub begin_settle :
      Routing
      → FacilitatorEnvelope
      → RequestContext
      → Option RateLimitDecision
      → ℕ
      → Action Database Begun
  unfolding begin_prepared
  begin_settle routing envelope context decision now =
      begin_prepared decision now (prepare routing envelope context)

-- How `settle` records a provider's answer: the row's values and the attempt's status.
abbrev pub outcome_of : SettlementRecord → SettleOutcome → ProviderSettlementStatus → Outcome
outcome_of r o ProviderSettlementStatus.settled = record {
  status = SettlementStatus.settled;
  transaction = o.transaction;
  payer = o.payer;
  error_reason = none;
}
outcome_of r o ProviderSettlementStatus.submitted = record {
  status = SettlementStatus.submitted;
  transaction = o.transaction;
  payer = o.payer;
  error_reason = none;
}
outcome_of r o ProviderSettlementStatus.failed_final = record {
  status = SettlementStatus.settle_failed;
  transaction = r.transaction;
  payer = r.payer;
  error_reason = o.error_reason;
}
outcome_of r o ProviderSettlementStatus.unknown = record {
  status = SettlementStatus.unknown;
  transaction = r.transaction;
  payer = r.payer;
  error_reason = o.error_reason;
}

abbrev pub attempt_status_of : ProviderSettlementStatus → SettlementAttemptStatus
attempt_status_of ProviderSettlementStatus.settled = SettlementAttemptStatus.settled
attempt_status_of ProviderSettlementStatus.submitted = SettlementAttemptStatus.submitted
attempt_status_of ProviderSettlementStatus.failed_final = SettlementAttemptStatus.failed
attempt_status_of ProviderSettlementStatus.unknown = SettlementAttemptStatus.unknown

abbrev or_payer : Option String → Option String → Option String
or_payer none payer = payer
or_payer (some text) payer = some text

-- the provider's outcome with the fields that the engine sets
abbrev pub completed : FacilitatorEnvelope → RequestContext → String → SettleOutcome → SettleOutcome
completed envelope context provider o =
    let status = provider_status o in
    record o {
      trace_id = some context.trace_id;
      provider = some provider;
      duplicate = some false;
      payer = or_payer (truthy_text o.payer) (payer_from_payment_payload envelope.payment_payload);
      settlement_status = some status;
      success = is_settled status;
    }

-- the answer where the provider raised
abbrev pub raised_outcome : RequestContext → String → SettlementRecord → SettleOutcome
raised_outcome context provider r =
    let o =
      outcome false none r.network none (some "settlement_outcome_unknown")
        ProviderSettlementStatus.unknown in
    record o { trace_id = some context.trace_id; provider = some provider; duplicate = some false }

abbrev pub then_answer :
    SettleOutcome → Result SettlementRecord × Database → Result SettleOutcome × Database
then_answer o (err e, db) = (err e, db)
then_answer o (ok r, db) = (ok o, db)

abbrev finalize :
    SettlementRecord
    → ℕ
    → SettleOutcome
    → ProviderSettlementStatus
    → ℕ
    → Action Database SettleOutcome
finalize r attempt_id o status now db = then_answer o (
    mark_record_and_finish_settle_attempt r attempt_id (attempt_status_of status)
      (outcome_of r o status) now db)

-- `settle` from the provider's answer on; an `err` is any exception of the provider
unfoldable pub complete_settle :
    FacilitatorEnvelope
    → RequestContext
    → String
    → SettlementRecord
    → ℕ
    → Result SettleOutcome
    → ℕ
    → Action Database SettleOutcome
complete_settle envelope context provider r attempt_id (err e) now db =
    then_answer (raised_outcome context provider r) (
      mark_record_and_finish_settle_attempt r attempt_id SettlementAttemptStatus.unknown
        (record {
          status = SettlementStatus.unknown;
          transaction = r.transaction;
          payer = r.payer;
          error_reason = some "provider_settlement_exception";
        })
        now db)
complete_settle envelope context provider r attempt_id (ok o) now db =
    finalize r attempt_id (completed envelope context provider o) (provider_status o) now db
