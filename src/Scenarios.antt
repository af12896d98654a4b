-- ===== src/Scenarios.antt =====
-- Concrete stores, requests and runs, at which the theorems are applied.
mod Sellers
mod Operations
mod Messages
mod Tokens
use Prim.Native.Char.{Char}
use x402_hosted_facilitator.Common.{
  IsIn, filter, not, Result, count_if, length, ◌+◌, ℕ, ◌+◌, ◌<◌, ◌≤◌, String, ◌≡◌, ◌≢◌, refl, ap,
  ◌⊎◌, ◌↔◌, Bool, true, false, Option, none, some, List, [], ◌∷◌, arith, Result, ok, err, All,
  is_some, string_eq, ne_of_eq_false,
}
use x402_hosted_facilitator.Common.Evolution.{Evolves}
use x402_hosted_facilitator.Json.{Value, Fields}
use x402_hosted_facilitator.Settlement.{SettlementRecord, ClaimRequest}
use x402_hosted_facilitator.Settlement.Status.{
  SettlementStatus, SettlementAttemptStatus, claim_for_status,
}
use x402_hosted_facilitator.Settlement.Identity.{requested_key, requested_replay_key}
use x402_hosted_facilitator.MemoryStore
use x402_hosted_facilitator.MemoryStore.Invariant.{IsWellFormed, init-IsWellFormed}
use x402_hosted_facilitator.MemoryStore.Trace as Memory
use x402_hosted_facilitator.MemoryStore.Trace.{run-IsWellFormed, granted_once}
use x402_hosted_facilitator.Postgres.{Database, empty}
use x402_hosted_facilitator.Postgres.Payment.{payment_of_request}
use x402_hosted_facilitator.Postgres.Claim.{claim_and_start_settle_attempt}
use x402_hosted_facilitator.Postgres.Finalize.{Outcome, set_outcome}
use x402_hosted_facilitator.Postgres.Lease.{claim_reconciliation_record, set_lease}
use x402_hosted_facilitator.Postgres.Reconcile.{update_reconciliation_record, not_leased}
use x402_hosted_facilitator.Postgres.Transition.{Keeps}
use x402_hosted_facilitator.Postgres.Trace.{Call}
use x402_hosted_facilitator.Postgres.Lifecycle.{Event, handle, run, run-Keeps}
use x402_hosted_facilitator.Postgres.Once.{rows_of, grants_of, payment_granted_once}
use x402_hosted_facilitator.Postgres.Leases.{Refuses, lease_excludes}
use x402_hosted_facilitator.Postgres.Holder.{lease_serves}
use x402_hosted_facilitator.Postgres.Claim.{has_id}
use x402_hosted_facilitator.Postgres.Operator.{claim_locked, manual_review_locked, with_locked}
use x402_hosted_facilitator.RateLimit.{
  RateLimitDecision, CounterKey, Counters, check, count, unlimited,
}
use x402_hosted_facilitator.RateLimit.Buckets.{
  RateLimitRequest, HostedRateLimitEndpoint, default_rate_limit_policy, buckets_for_request,
}
use x402_hosted_facilitator.RateLimit.Bounds.{Rejects, HasRoom, charges}
use x402_hosted_facilitator.RateLimit.Window.{
  Arrivals, AllWithin, admitted_of, admitted_le_limit, check_cases,
}
use x402_hosted_facilitator.Engine.{complete_settle, FacilitatorEnvelope, RequestContext, Routing}
use x402_hosted_facilitator.Engine.Answers.{
  SettleOutcome, ProviderSettlementStatus, outcome, cached_settlement, claim_for_existing_status,
  success_of, duplicate_answer,
}
use x402_hosted_facilitator.Reconciler.{
  Provider, ReconciliationStatus, ReconciliationRunStats, no_stats, run_once,
}
use x402_hosted_facilitator.Reconciler.Scan.{
  HostedSettlementReconciler, scan_candidates, scan_candidates-le,
}
use x402_hosted_facilitator.Reconciler.Counts.{results, run_once-accounts}
use x402_hosted_facilitator.Engine.Outcomes.{is_recorded, complete_settle-recorded}
use x402_hosted_facilitator.Engine.Submission.{Step, submissions_of, submitted_once}

abbrev digest : String → String
digest text = text

abbrev requirements : Fields
requirements = Fields.field "scheme" (Value.str "exact") (
    Fields.field "network" (Value.str "eip155:5042002")
      (Fields.field "resource" (Value.str "https://shop.example/report") Fields.end))

-- one payment, claimed under a payment profile
abbrev claim_under : String → ClaimRequest
claim_under profile = record {
  seller_account_id = "acme";
  payment_profile_id = profile;
  fingerprint = "f00d";
  provider = "exact_evm";
  scheme = some "exact";
  network = some "eip155:5042002";
  trace_id = "trace-1";
  raw_requirements = requirements;
}

abbrev stored : SettlementStatus → Option String → Option ℕ → SettlementRecord
stored status owner lease_until = record {
  record_id = some 1;
  seller_account_id = "acme";
  fingerprint = "f00d";
  provider = "exact_evm";
  scheme = some "exact";
  network = some "eip155:5042002";
  status = status;
  trace_id = some "trace-1";
  transaction = none;
  payer = none;
  error_reason = none;
  created_at = 10;
  updated_at = 10;
  raw_requirements = requirements;
  reconciliation_owner = owner;
  reconciliation_lease_until = lease_until;
  reconciliation_attempts = 0;
  payment_profile_id = "default";
  duplicate_claims = 0;
  last_duplicate_at = none;
}

abbrev holding : SettlementRecord → Database
holding r = record {
  settlement_records = r ∷ [];
  settlement_attempts = [];
  next_record_id = 2;
  next_attempt_id = 1;
}

abbrev settled_onchain : Outcome
settled_onchain = record {
  status = SettlementStatus.settled;
  transaction = some "0xabc";
  payer = some "0xbuyer";
  error_reason = none;
}

-- two claims of the payment under two profiles, a settlement and a late loss
abbrev events : List Event
events =
    Event.claim true (claim_under "default") 10
    ∷ Event.claim true (claim_under "other") 11
    ∷ Event.call (
        Call.finalize (stored SettlementStatus.settle_in_progress none none) 1
          SettlementAttemptStatus.settled settled_onchain 12)
    ∷ Event.call (Call.lose (stored SettlementStatus.settled none none) (some "late") 13)
    ∷ []

payment_granted_once_example :
    (grants_of digest (payment_of_request (claim_under "default")) events empty
      ≡ rows_of (payment_of_request (claim_under "default")) (run digest events empty))
    × (grants_of digest (payment_of_request (claim_under "default")) events empty ≤ 1)
payment_granted_once_example =
    payment_granted_once digest (payment_of_request (claim_under "default")) events

-- it is granted once indeed
granted_events : grants_of digest (payment_of_request (claim_under "default")) events empty ≡ 1
unfolding grants_of claim_and_start_settle_attempt handle claim_for_status
granted_events = refl

abbrev in_progress : Database
in_progress = holding (stored SettlementStatus.settle_in_progress none none)

run-Keeps_example :
    Evolves Keeps in_progress.settlement_records (run digest events in_progress).settlement_records
run-Keeps_example = run-Keeps digest events in_progress

abbrev calls : List Memory.Call
calls =
    Memory.Call.claim (claim_under "default") 10
    ∷ Memory.Call.claim (claim_under "other") 11
    ∷ Memory.Call.settle (requested_key (claim_under "default")) (some "0xabc") none 12
    ∷ []

granted_once_example :
    Memory.grants_of digest (requested_replay_key (claim_under "default")) calls MemoryStore.init
    ≤ 1
granted_once_example = granted_once digest (requested_replay_key (claim_under "default")) calls

run-IsWellFormed_example : IsWellFormed (Memory.run digest calls MemoryStore.init)
run-IsWellFormed_example = run-IsWellFormed digest calls MemoryStore.init init-IsWellFormed

abbrev worker : String
worker = "worker-b"

abbrev holder : String
holder = "worker-a"

named_worker : holder ≢ ""
named_worker = ne_of_eq_false holder "" refl

other_worker : worker ≢ holder
other_worker = ne_of_eq_false worker holder refl

-- A worker holds the record until 160; another comes at 100.
abbrev held_row : SettlementRecord
held_row = stored SettlementStatus.unknown (some "worker-a") (some 160)

lease_excludes_example :
    (claim_reconciliation_record 1 "worker-a" 170
        (SettlementStatus.unknown ∷ [])
        none
        100
        (holding held_row)
      ≡ (ok none, holding held_row))
    × Refuses
        (with_locked 1 (λ row. claim_locked row "worker-a" 170 90 100) (holding held_row))
        (holding held_row)
    × Refuses
        (update_reconciliation_record held_row
          (SettlementStatus.unknown ∷ [])
          settled_onchain
          "worker-b"
          100
          (holding held_row))
        (holding held_row)
    × Refuses
        (with_locked 1 (λ row. manual_review_locked row "worker-b" 100) (holding held_row))
        (holding held_row)
lease_excludes_example =
    lease_excludes 1 "worker-a" 160 100 (holding held_row) "worker-a" "worker-b" 170
      (SettlementStatus.unknown ∷ []) none 90 held_row (SettlementStatus.unknown ∷ [])
      settled_onchain ((λ same. (refl, refl, omega arith)), tt) other_worker refl

-- The worker that claims the free record at 100 settles it at 150.
abbrev free_row : SettlementRecord
free_row = stored SettlementStatus.unknown none none

abbrev claimed_row : SettlementRecord
claimed_row = set_lease "worker-a" 160 free_row

row_claimed :
    (claim_reconciliation_record 1 "worker-a" 160
      (SettlementStatus.unknown ∷ [])
      none
      100
      (holding free_row)).0
    ≡ ok (some claimed_row)
unfolding claim_reconciliation_record
row_claimed = refl

abbrev held : Database
held =
    (claim_reconciliation_record 1 "worker-a" 160 (SettlementStatus.unknown ∷ []) none 100
      (holding free_row)).1

abbrev moved : Result SettlementRecord × Database
moved =
    update_reconciliation_record claimed_row (SettlementStatus.unknown ∷ []) settled_onchain
      "worker-a" 150 held

lease_serves_example :
    (moved.0 ≡ ok (set_outcome settled_onchain 150 claimed_row))
    × IsIn (set_outcome settled_onchain 150 claimed_row) moved.1.settlement_records
    × (filter (λ r. not (has_id (some 1) r)) moved.1.settlement_records
        ≡ filter (λ r. not (has_id (some 1) r)) (holding free_row).settlement_records)
lease_serves_example =
    lease_serves 1 "worker-a" 160 SettlementStatus.unknown [] none 100 150 (holding free_row)
      claimed_row (SettlementStatus.unknown ∷ []) settled_onchain named_worker (omega arith) refl
      row_claimed

duplicate_answer_example :
    (claim_for_existing_status free_row.status ≡ claim_for_status free_row.status)
    × (is_some (cached_settlement free_row (claim_for_status free_row.status)) ≡ true)
    × ((success_of (cached_settlement free_row (claim_for_status free_row.status)) ≡ true)
        ↔ (free_row.status ≡ SettlementStatus.settled))
duplicate_answer_example = duplicate_answer free_row

abbrev every_char : Char → Bool
every_char c = true

abbrev settle_request : RateLimitRequest
settle_request = record {
  endpoint = HostedRateLimitEndpoint.settle;
  seller_account_id = some "acme";
  tenant_id = some "production";
  client_host = none;
  policy = record default_rate_limit_policy { settle_per_minute = some 2 };
}

abbrev settle_counter : CounterKey
settle_counter = record { key = "seller_account:acme:settle"; window_id = 1 }

-- three requests in one minute, where two are allowed
abbrev burst : Arrivals
burst = (settle_request, 60) ∷ (settle_request, 70) ∷ (settle_request, 80) ∷ []

burst_admitted : admitted_of every_char settle_counter burst [] ≡ 2
unfolding admitted_of check buckets_for_request count x402_hosted_facilitator.Common.Dict.get
    x402_hosted_facilitator.RateLimit.most_restrictive
    x402_hosted_facilitator.RateLimit.increment_all x402_hosted_facilitator.RateLimit.increment
    x402_hosted_facilitator.Common.Dict.put x402_hosted_facilitator.RateLimit.Buckets.safe_key_part
    x402_hosted_facilitator.RateLimit.tightest x402_hosted_facilitator.RateLimit.longest
burst_admitted = refl

-- the settle bucket allows two, and the other bucket is not of this counter
burst_within : AllWithin every_char settle_counter 2 burst
unfolding buckets_for_request x402_hosted_facilitator.RateLimit.Buckets.safe_key_part
burst_within = (
  ((λ same. omega arith), ((λ same. absurd (cc)), tt)),
  (
    ((λ same. omega arith), ((λ same. absurd (cc)), tt)),
    (((λ same. omega arith), ((λ same. absurd (cc)), tt)), tt),
  ),
)

admitted_le_limit_example : admitted_of every_char settle_counter burst [] ≤ 2
admitted_le_limit_example = admitted_le_limit every_char settle_counter 2 burst burst_within

check_cases_example :
    (Rejects (check every_char settle_request 60 []).0
      × ((check every_char settle_request 60 []).1 ≡ []))
    ⊎ (All (HasRoom 60 []) (buckets_for_request every_char settle_request)
        × ((key : CounterKey)
            → count key (check every_char settle_request 60 []).1
              ≡ count key [] + charges key 60 (buckets_for_request every_char settle_request)))
check_cases_example = check_cases every_char settle_request 60 []

abbrev envelope : FacilitatorEnvelope
envelope = record {
  x402_version = 2;
  payment_payload = Fields.end;
  payment_requirements = requirements;
}

abbrev request_context : String → RequestContext
request_context profile = record {
  trace_id = "trace-1";
  seller_account_id = "acme";
  tenant_id = "production";
  payment_profile_id = profile;
  rate_limits = default_rate_limit_policy;
  client_host = none;
}

abbrev routing : Routing
routing = record {
  validate_settlement_envelope = λ e. none;
  route = λ e c. ok "exact_evm";
  validate_envelope = λ p e. none;
  preflight_settlement = λ p e c. none;
  payment_fingerprint = λ e p. ok "f00d";
}

abbrev provider_settled : Result SettleOutcome
provider_settled = ok (
    outcome true (some "0xabc") (some "eip155:5042002") (some "0xbuyer") none
      ProviderSettlementStatus.settled)

-- two requests for one payment, the second before the first is answered
abbrev steps : List Step
steps =
    Step.begin envelope (request_context "default") (some unlimited) 10
    ∷ Step.begin envelope (request_context "other") none 11
    ∷ Step.complete envelope (request_context "default") "exact_evm"
        (stored SettlementStatus.settle_in_progress none none) 1 provider_settled 12
    ∷ Step.begin envelope (request_context "default") (some unlimited) 13
    ∷ []

submitted_steps :
    submissions_of digest routing (payment_of_request (claim_under "default")) steps empty ≡ 1
unfolding submissions_of x402_hosted_facilitator.Engine.begin_settle
    x402_hosted_facilitator.Engine.prepare x402_hosted_facilitator.Engine.cached_existing_settlement
    x402_hosted_facilitator.Postgres.Claim.get
    x402_hosted_facilitator.Postgres.Claim.get_by_provider_fingerprint
    claim_and_start_settle_attempt cached_settlement x402_hosted_facilitator.Json.get
    x402_hosted_facilitator.Engine.Submission.step claim_for_status
    x402_hosted_facilitator.Engine.complete_settle
    x402_hosted_facilitator.Postgres.Finalize.mark_record_and_finish_settle_attempt
    x402_hosted_facilitator.Postgres.Finalize.update_record claim_for_existing_status
submitted_steps = refl

submitted_once_example :
    submissions_of digest routing (payment_of_request (claim_under "default")) steps empty ≤ 1
submitted_once_example =
    submitted_once digest routing (payment_of_request (claim_under "default")) steps

abbrev claimed_record : SettlementRecord
claimed_record = stored SettlementStatus.settle_in_progress none none

abbrev settled_answer : SettleOutcome
settled_answer =
    let o =
      outcome true (some "0xabc") (some "eip155:5042002") (some "0xbuyer") none
        ProviderSettlementStatus.settled in
    record o { trace_id = some "trace-1"; provider = some "exact_evm"; duplicate = some false }

completed_settle :
    (complete_settle envelope
      (request_context "default")
      "exact_evm"
      claimed_record
      1
      provider_settled
      12
      in_progress).0
    ≡ ok settled_answer
unfolding complete_settle
    x402_hosted_facilitator.Postgres.Finalize.mark_record_and_finish_settle_attempt
    x402_hosted_facilitator.Postgres.Finalize.update_record
completed_settle = refl

complete_settle-recorded_example :
    0
    < count_if
        (is_recorded (some 1) (some "0xabc"))
        (complete_settle envelope
          (request_context "default")
          "exact_evm"
          claimed_record
          1
          provider_settled
          12
          in_progress).1.settlement_records
complete_settle-recorded_example =
    complete_settle-recorded envelope (request_context "default") "exact_evm" claimed_record 1
      provider_settled 12 in_progress settled_answer completed_settle refl

abbrev reconciler : HostedSettlementReconciler
reconciler = record {
  owner = "worker-a";
  lease_seconds = 60;
  stale_in_progress_after = 120;
  stale_submitted_after = 120;
  stale_unknown_after = 50;
  manual_review_after = 1800;
  limit = 10;
}

abbrev reports_settled : String → Option Provider
reports_settled name = some (record {
  reconcile_settlement = some (λ r. ok (record {
    status = ReconciliationStatus.settled;
    transaction = some "0xabc";
    payer = none;
    error_reason = none;
  }));
})

-- the free record is scanned, claimed and settled
abbrev one_settled : ReconciliationRunStats
one_settled = record no_stats { scanned = 1; claimed = 1; settled = 1 }

free_row_settled :
    (run_once reconciler 100 100 reports_settled (holding free_row)).0 ≡ ok one_settled
unfolding run_once x402_hosted_facilitator.Reconciler.reconcile_all scan_candidates
    x402_hosted_facilitator.Postgres.Lease.list_reconciliation_candidates
    x402_hosted_facilitator.Common.Sort.sort claim_reconciliation_record
    x402_hosted_facilitator.Postgres.Reconcile.mark_reconciled_settled update_reconciliation_record
free_row_settled = refl

run_once-accounts_example :
    (one_settled.scanned ≡ length (scan_candidates reconciler 100 100 (holding free_row)))
    × (one_settled.claimed + one_settled.skipped ≡ one_settled.scanned)
    × (one_settled.claimed ≤ results one_settled)
run_once-accounts_example =
    run_once-accounts reconciler 100 100 reports_settled (holding free_row) one_settled
      free_row_settled

scan_candidates-le_example :
    length (scan_candidates reconciler 100 100 (holding free_row)) ≤ reconciler.limit
scan_candidates-le_example = scan_candidates-le reconciler 100 100 (holding free_row)
