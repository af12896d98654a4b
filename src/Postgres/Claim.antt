-- ===== src/Postgres/Claim.antt =====
-- `PostgresSettlementStore.claim_and_start_settle_attempt` and the attempt rows.
use x402_hosted_facilitator.Common.{
  ℕ, ◌+◌, String, Bool, true, false, Option, none, some, [], ◌∷◌, ◌++◌, ok, err, nat_eq,
  value_error, Action, ◌==◌, option_eq, find,
}
use x402_hosted_facilitator.Settlement.{SettlementRecord, SettlementAttemptRecord, ClaimRequest}
use x402_hosted_facilitator.Settlement.Status.{
  SettlementStatus, SettlementClaim, SettlementAttemptStatus, claim_for_status,
}
use x402_hosted_facilitator.Settlement.Identity.{
  RecordKey, record_key, record_key_eq, requested_key,
}
use x402_hosted_facilitator.Settlement.Redaction.{safe_requirements}
use x402_hosted_facilitator.Postgres.{Database, update, write_records, write_attempts}
use x402_hosted_facilitator.Postgres.Payment.{payment_of, payment_of_request, payment_eq}

-- WHERE seller_account_id = .. AND provider = .. AND COALESCE(scheme, '') = .. AND fingerprint = ..
abbrev pub has_payment : ClaimRequest → SettlementRecord → Bool
has_payment q r = payment_of_request q == payment_of r

-- WHERE seller_account_id = .. AND payment_profile_id = .. AND fingerprint = ..
abbrev pub has_key : RecordKey → SettlementRecord → Bool
has_key k r = k == record_key r

abbrev pub has_id : Option ℕ → SettlementRecord → Bool
has_id id r = r.record_id == id

unfoldable pub get : RecordKey → Database → Option SettlementRecord
get k db = find (has_key k) db.settlement_records

-- its WHERE is that of the claim's lookup by payment
unfoldable pub get_by_provider_fingerprint : ClaimRequest → Database → Option SettlementRecord
get_by_provider_fingerprint q db = find (has_payment q) db.settlement_records

unfoldable pub get_record_by_id : ℕ → Database → Option SettlementRecord
get_record_by_id id db = find (has_id (some id)) db.settlement_records

-- SET duplicate_claims = duplicate_claims + 1, last_duplicate_at = now
abbrev pub count_duplicate : ℕ → SettlementRecord → SettlementRecord
count_duplicate now r = record r {
  duplicate_claims = r.duplicate_claims + 1;
  last_duplicate_at = some now;
}

abbrev pub Claimed : Type 0
Claimed = SettlementRecord × SettlementClaim × Option ℕ

-- A row that stood already: it is returned as it was read, and counts one more duplicate.
abbrev pub answer_duplicate : SettlementRecord → ℕ → Action Database Claimed
answer_duplicate r now db = (
  ok (r, claim_for_status r.status, none),
  write_records (update (has_id r.record_id) (count_duplicate now) db.settlement_records) db,
)

-- INSERT_ATTEMPT_SQL; it returns the new id.
abbrev pub insert_attempt : ℕ → String → ℕ → Database → Database
insert_attempt record_id trace_id now db = record db {
  settlement_attempts =
      db.settlement_attempts
      ++ record {
        attempt_id = db.next_attempt_id;
        settlement_record_id = record_id;
        trace_id = some trace_id;
        status = SettlementAttemptStatus.started;
        started_at = now;
        finished_at = none;
        transaction = none;
        error_reason = none;
      }
        ∷ [];
  next_attempt_id = db.next_attempt_id + 1;
}

module _ (sha256_hexdigest : String → String) where
  abbrev pub new_row : ClaimRequest → ℕ → ℕ → SettlementRecord
  new_row q now id = record {
    record_id = some id;
    seller_account_id = q.seller_account_id;
    fingerprint = q.fingerprint;
    provider = q.provider;
    scheme = q.scheme;
    network = q.network;
    status = SettlementStatus.settle_in_progress;
    trace_id = some q.trace_id;
    transaction = none;
    payer = none;
    error_reason = none;
    created_at = now;
    updated_at = now;
    raw_requirements = safe_requirements sha256_hexdigest q.raw_requirements;
    reconciliation_owner = none;
    reconciliation_lease_until = none;
    reconciliation_attempts = 0;
    payment_profile_id = q.payment_profile_id;
    duplicate_claims = 0;
    last_duplicate_at = none;
  }

  abbrev pub insert_row : ClaimRequest → ℕ → Database → Database
  insert_row q now db = record db {
    settlement_records = db.settlement_records ++ new_row q now db.next_record_id ∷ [];
    next_record_id = db.next_record_id + 1;
  }

  -- the inserted record, and its attempt unless `start_attempt=False`
  abbrev pub answer_claimed : Bool → ClaimRequest → ℕ → Action Database Claimed
  answer_claimed false q now db =
      (ok (new_row q now db.next_record_id, SettlementClaim.claimed, none), insert_row q now db)
  answer_claimed true q now db = (
    ok (new_row q now db.next_record_id, SettlementClaim.claimed, some db.next_attempt_id),
    insert_attempt db.next_record_id q.trace_id now (insert_row q now db),
  )

  -- CLAIM_RECORD_SQL: the unique constraint on (seller, profile, fingerprint) lets the insertion
  -- through or leaves the row that stands there to be selected.
  abbrev claim_by_key : Bool → ClaimRequest → ℕ → Option SettlementRecord → Action Database Claimed
  claim_by_key start q now none db = answer_claimed start q now db
  claim_by_key start q now (some r) db = answer_duplicate r now db

  abbrev claim_by_payment :
      Bool → ClaimRequest → ℕ → Option SettlementRecord → Action Database Claimed
  claim_by_payment start q now (some r) db = answer_duplicate r now db
  claim_by_payment start q now none db =
      claim_by_key start q now (find (has_key (requested_key q)) db.settlement_records) db

  -- One transaction under the advisory lock of the payment. It always finds or makes a row, so the
  -- loop over `_CLAIM_VISIBILITY_RETRIES` returns in its first round.
  unfoldable pub claim_and_start_settle_attempt : Bool → ClaimRequest → ℕ → Action Database Claimed
  claim_and_start_settle_attempt start q now db =
      claim_by_payment start q now (find (has_payment q) db.settlement_records) db

  unfoldable pub claim_for_settlement :
      ClaimRequest → ℕ → Action Database (SettlementRecord × SettlementClaim)
  unfolding claim_and_start_settle_attempt
  claim_for_settlement q now db =
      let (r, db') = claim_and_start_settle_attempt false q now db in
      elim r [ ok (row, claim, _) ↦ (ok (row, claim), db') | err e ↦ (err e, db') ]

unfoldable pub start_settle_attempt : SettlementRecord → String → ℕ → Action Database ℕ
start_settle_attempt r trace_id now db = elim r.record_id [
  | none ↦ (err (value_error "settlement record id is required for attempts"), db)
  | some id ↦ (ok db.next_attempt_id, insert_attempt id trace_id now db)
]

abbrev pub finished :
    SettlementAttemptStatus
    → Option String
    → Option String
    → ℕ
    → SettlementAttemptRecord
    → SettlementAttemptRecord
finished status transaction error_reason now a = record a {
  status = status;
  finished_at = some now;
  transaction = transaction;
  error_reason = error_reason;
}

-- UPDATE settlement_attempts .. WHERE id = ..
abbrev pub finish_attempt :
    ℕ → SettlementAttemptStatus → Option String → Option String → ℕ → Database → Database
finish_attempt attempt_id status transaction error_reason now db =
    write_attempts
      (update (λ a. a.attempt_id == attempt_id) (finished status transaction error_reason now)
        db.settlement_attempts)
      db

unfoldable pub finish_settle_attempt :
    ℕ → SettlementAttemptStatus → Option String → Option String → ℕ → Database → Database
finish_settle_attempt attempt_id status transaction error_reason now =
    finish_attempt attempt_id status transaction error_reason now
