-- ===== src/MemoryStore.antt =====
-- `InMemorySettlementStore` (src/hosted_facilitator/hosted/storage.py). Each method runs under the
-- store's lock, so it is one step. A record in `_records` is a shared object that a method mutates:
-- a reference to it is its key, which no method changes or removes. A method that reads the clock
-- takes the reading as an argument (the two that a new record takes for `created_at` and
-- `updated_at` are one here).
pub mod Invariant
pub mod Claims
pub mod Trace
pub mod Queries
pub mod Reports
use x402_hosted_facilitator.Common.{
  ℕ, ◌+◌, String, Option, none, some, [], ok, err, key_error, Action, nat_eq,
}
use x402_hosted_facilitator.Common.Dict
use x402_hosted_facilitator.Common.Dict.{Dict}
use x402_hosted_facilitator.Settlement.{SettlementRecord, ClaimRequest}
use x402_hosted_facilitator.Settlement.Status.{
  SettlementStatus, SettlementClaim, SettlementAttemptStatus, claim_for_status,
}
use x402_hosted_facilitator.Settlement.Identity.{
  RecordKey, ReplayKey, record_key_eq, replay_key_eq, requested_key, requested_replay_key,
}
use x402_hosted_facilitator.Settlement.Redaction.{safe_requirements}

-- an entry of `_attempts`
pub record AttemptEntry : Type 0 where
  pub settlement_record_id : Option ℕ
  pub trace_id : String
  pub status : SettlementAttemptStatus
  pub started_at : ℕ
  pub finished_at : Option ℕ
  pub transaction : Option String
  pub error_reason : Option String

pub record InMemorySettlementStore : Type 0 where
  pub records : Dict RecordKey SettlementRecord
  pub provider_fingerprint_index : Dict ReplayKey RecordKey
  pub attempts : Dict ℕ AttemptEntry
  pub next_record_id : ℕ
  pub next_attempt_id : ℕ

-- `__init__`
abbrev pub init : InMemorySettlementStore
init = record {
  records = [];
  provider_fingerprint_index = [];
  attempts = [];
  next_record_id = 1;
  next_attempt_id = 1;
}

unfoldable pub get : RecordKey → InMemorySettlementStore → Option SettlementRecord
get key s = Dict.get key s.records

unfoldable pub get_by_provider_fingerprint :
    ReplayKey → InMemorySettlementStore → Option SettlementRecord
get_by_provider_fingerprint replay_key s = elim (Dict.get replay_key s.provider_fingerprint_index) [
  | none ↦ none
  | some record_key ↦ Dict.get record_key s.records
]

-- `_record_duplicate_claim`
abbrev pub record_duplicate_claim : ℕ → SettlementRecord → SettlementRecord
record_duplicate_claim now r = record r {
  duplicate_claims = r.duplicate_claims + 1;
  last_duplicate_at = some now;
}

-- the mutation of the record object that `key` refers to
abbrev pub write_record :
    RecordKey → SettlementRecord → InMemorySettlementStore → InMemorySettlementStore
write_record key r s = record s { records = Dict.put key r s.records }

module _ (sha256_hexdigest : String → String) where
  abbrev pub new_record : ClaimRequest → ℕ → ℕ → SettlementRecord
  new_record q now id = record {
    record_id = some id;
    seller_account_id = q.seller_account_id;
    fingerprint = q.fingerprint;
    provider = q.provider;
    scheme = q.scheme;
    network = q.network;
    status = SettlementStatus.settle_in_progress;
    trace_id = some q.trace_id;
    transaction = none;
    payer = none;
    error_reason = none;
    created_at = now;
    updated_at = now;
    raw_requirements = safe_requirements sha256_hexdigest q.raw_requirements;
    reconciliation_owner = none;
    reconciliation_lease_until = none;
    reconciliation_attempts = 0;
    payment_profile_id = q.payment_profile_id;
    duplicate_claims = 0;
    last_duplicate_at = none;
  }

  abbrev pub inserted : ClaimRequest → ℕ → InMemorySettlementStore → InMemorySettlementStore
  inserted q now s = record s {
    records = Dict.put (requested_key q) (new_record q now s.next_record_id) s.records;
    provider_fingerprint_index =
        Dict.put (requested_replay_key q) (requested_key q) s.provider_fingerprint_index;
    next_record_id = s.next_record_id + 1;
  }

  -- no record by either key
  abbrev insert_claim :
      ClaimRequest → ℕ → Action InMemorySettlementStore (RecordKey × SettlementClaim)
  insert_claim q now s = (ok (requested_key q, SettlementClaim.claimed), inserted q now s)

  -- `existing`, found under `key`, is claimed once more
  abbrev duplicate_claim :
      RecordKey
      → SettlementRecord
      → ℕ
      → Action InMemorySettlementStore (RecordKey × SettlementClaim)
  duplicate_claim key existing now s = (
    ok (key, claim_for_status existing.status),
    write_record key (record_duplicate_claim now existing) s,
  )

  -- `self._records[replay_record_key]` raises if the index names no record
  abbrev claim_replayed :
      RecordKey
      → ℕ
      → Option SettlementRecord
      → Action InMemorySettlementStore (RecordKey × SettlementClaim)
  claim_replayed key now none s = (err (key_error "replay_record_key"), s)
  claim_replayed key now (some replay_record) s = duplicate_claim key replay_record now s

  abbrev claim_by_replay :
      ClaimRequest
      → ℕ
      → Option RecordKey
      → Action InMemorySettlementStore (RecordKey × SettlementClaim)
  claim_by_replay q now none s = insert_claim q now s
  claim_by_replay q now (some key) s = claim_replayed key now (Dict.get key s.records) s

  abbrev claim_by_key :
      ClaimRequest
      → ℕ
      → Option SettlementRecord
      → Action InMemorySettlementStore (RecordKey × SettlementClaim)
  claim_by_key q now (some existing) s = duplicate_claim (requested_key q) existing now s
  claim_by_key q now none s =
      claim_by_replay q now (Dict.get (requested_replay_key q) s.provider_fingerprint_index) s

  unfoldable pub claim_for_settlement :
      ClaimRequest → ℕ → Action InMemorySettlementStore (RecordKey × SettlementClaim)
  claim_for_settlement q now s = claim_by_key q now (Dict.get (requested_key q) s.records) s

unfoldable pub start_settle_attempt : Option ℕ → String → ℕ → Action InMemorySettlementStore ℕ
start_settle_attempt record_id trace_id now s = (
  ok s.next_attempt_id,
  record s {
    attempts =
        Dict.put s.next_attempt_id
          (record {
            settlement_record_id = record_id;
            trace_id = trace_id;
            status = SettlementAttemptStatus.started;
            started_at = now;
            finished_at = none;
            transaction = none;
            error_reason = none;
          })
          s.attempts;
    next_attempt_id = s.next_attempt_id + 1;
  },
)

unfoldable pub finish_settle_attempt :
    ℕ
    → SettlementAttemptStatus
    → Option String
    → Option String
    → ℕ
    → InMemorySettlementStore
    → InMemorySettlementStore
finish_settle_attempt attempt_id status transaction error_reason now s =
    elim (Dict.get attempt_id s.attempts) [
      | none ↦ s
      | some attempt ↦ record s {
        attempts =
            Dict.put attempt_id
              (record attempt {
                status = status;
                finished_at = some now;
                transaction = transaction;
                error_reason = error_reason;
              })
              s.attempts;
      }
    ]

-- A method that assigns to fields of the record that `key` refers to.
unfoldable pub mutate :
    RecordKey
    → (SettlementRecord → SettlementRecord)
    → InMemorySettlementStore
    → InMemorySettlementStore
mutate key change s = elim (Dict.get key s.records) [
  | none ↦ s
  | some r ↦ write_record key (change r) s
]

abbrev pub set_settled : Option String → Option String → ℕ → SettlementRecord → SettlementRecord
set_settled transaction payer now r = record r {
  status = SettlementStatus.settled;
  transaction = transaction;
  payer = payer;
  updated_at = now;
}

abbrev pub set_submitted : Option String → Option String → ℕ → SettlementRecord → SettlementRecord
set_submitted transaction payer now r = record r {
  status = SettlementStatus.submitted;
  transaction = transaction;
  payer = payer;
  updated_at = now;
}

abbrev pub set_failed : Option String → ℕ → SettlementRecord → SettlementRecord
set_failed error_reason now r = record r {
  status = SettlementStatus.settle_failed;
  error_reason = error_reason;
  updated_at = now;
}

abbrev pub set_unknown : Option String → ℕ → SettlementRecord → SettlementRecord
set_unknown error_reason now r = record r {
  status = SettlementStatus.unknown;
  error_reason = error_reason;
  updated_at = now;
}

unfoldable pub mark_settled :
    RecordKey
    → Option String
    → Option String
    → ℕ
    → InMemorySettlementStore
    → InMemorySettlementStore
unfolding mutate
mark_settled key transaction payer now = mutate key (set_settled transaction payer now)

unfoldable pub mark_settle_failed :
    RecordKey → Option String → ℕ → InMemorySettlementStore → InMemorySettlementStore
unfolding mutate
mark_settle_failed key error_reason now = mutate key (set_failed error_reason now)

unfoldable pub mark_submitted :
    RecordKey
    → Option String
    → Option String
    → ℕ
    → InMemorySettlementStore
    → InMemorySettlementStore
unfolding mutate
mark_submitted key transaction payer now = mutate key (set_submitted transaction payer now)

unfoldable pub mark_unknown :
    RecordKey → Option String → ℕ → InMemorySettlementStore → InMemorySettlementStore
unfolding mutate
mark_unknown key error_reason now = mutate key (set_unknown error_reason now)
