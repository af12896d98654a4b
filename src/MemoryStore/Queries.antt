-- ===== src/MemoryStore/Queries.antt =====
-- The read-only methods of `InMemorySettlementStore` (src/hosted_facilitator/hosted/storage.py). A
-- limit is a natural number (the source takes a negative one as 0); the key of a count is the status.
use x402_hosted_facilitator.Common.{
  ℕ, ◌+◌, String, Bool, true, false, ◌&&◌, ◌||◌, Option, none, some, List, [], ◌∷◌, map, min, max,
  ◌==◌, nat_eq, string_eq, option_beq, if◌then◌else◌, ltb, leb, filter, find, length, take,
  count_if,
}
use x402_hosted_facilitator.Common.Sort.{sort}
use x402_hosted_facilitator.Common.Dict
use x402_hosted_facilitator.Common.Dict.{Dict}
use x402_hosted_facilitator.Settlement.{SettlementRecord, SettlementAttemptRecord}
use x402_hosted_facilitator.Settlement.Status.{SettlementStatus, status_eq, is_in}
use x402_hosted_facilitator.MemoryStore.{InMemorySettlementStore, AttemptEntry}

abbrev pub values {ℓ} : {K V : Type ℓ} → Dict K V → List V
values [] = []
values ((k, v) ∷ d) = v ∷ values d

-- `self._records.values()`
abbrev pub stored : InMemorySettlementStore → List SettlementRecord
stored s = values s.records

unfoldable pub count : InMemorySettlementStore → ℕ
count s = length (stored s)

unfoldable pub attempt_count : InMemorySettlementStore → ℕ
attempt_count s = length s.attempts

-- `counts[status] += 1`, and `counts[status] = counts.get(status, 0) + 1`
abbrev pub number_of : Option ℕ → ℕ
number_of none = 0
number_of (some n) = n

abbrev pub add_one : SettlementStatus → Dict SettlementStatus ℕ → Dict SettlementStatus ℕ
add_one status counts = Dict.put status (number_of (Dict.get status counts) + 1) counts

abbrev pub all_statuses : List SettlementStatus
all_statuses =
    SettlementStatus.received ∷ SettlementStatus.settle_in_progress ∷ SettlementStatus.submitted
    ∷ SettlementStatus.settled ∷ SettlementStatus.settle_failed ∷ SettlementStatus.unknown
    ∷ SettlementStatus.reconciled ∷ SettlementStatus.manual_review ∷ []

-- `{status.value: 0 for status in SettlementStatus}`
abbrev pub zero_counts : Dict SettlementStatus ℕ
zero_counts = map (λ status. (status, 0)) all_statuses

unfoldable pub tally :
    (SettlementRecord → Bool)
    → List SettlementRecord
    → Dict SettlementStatus ℕ
    → Dict SettlementStatus ℕ
tally test [] counts = counts
tally test (r ∷ rs) counts = tally test rs (if test r then add_one r.status counts else counts)

-- `{status: count for status, count in counts.items() if count > 0}`
abbrev pub positive : Dict SettlementStatus ℕ → Dict SettlementStatus ℕ
positive counts = filter (λ (entry : SettlementStatus × ℕ). ltb 0 entry.1) counts

unfoldable pub settlement_status_counts : InMemorySettlementStore → Dict SettlementStatus ℕ
unfolding tally Dict.put Dict.get
settlement_status_counts s = positive (tally (λ r. true) (stored s) zero_counts)

abbrev pub of_seller : String → SettlementRecord → Bool
of_seller seller_account_id r = r.seller_account_id == seller_account_id

unfoldable pub settlement_status_counts_for_seller :
    String → InMemorySettlementStore → Dict SettlementStatus ℕ
unfolding tally Dict.put Dict.get
settlement_status_counts_for_seller seller_account_id s =
    positive (tally (of_seller seller_account_id) (stored s) zero_counts)

-- `record.record_id or 0`
abbrev pub id_of : SettlementRecord → ℕ
id_of r = number_of r.record_id

-- the order of the keys (updated_at, record_id or 0)
abbrev pub older : SettlementRecord → SettlementRecord → Bool
older a b =
    if a.updated_at == b.updated_at then leb (id_of a) (id_of b) else ltb a.updated_at b.updated_at

-- the same order, reversed
abbrev pub newer : SettlementRecord → SettlementRecord → Bool
newer a b = older b a

unfoldable pub list_recent_records : ℕ → InMemorySettlementStore → List SettlementRecord
list_recent_records limit s = take (min limit 100) (sort newer (stored s))

unfoldable pub list_recent_records_for_seller :
    String → ℕ → InMemorySettlementStore → List SettlementRecord
list_recent_records_for_seller seller_account_id limit s =
    take (min limit 100) (sort newer (filter (of_seller seller_account_id) (stored s)))

-- the keyword arguments of a reconciliation queue
pub record QueueFilter : Type 0 where
  pub statuses : List SettlementStatus
  pub stale_before : Option ℕ
  pub seller_account_id : Option String
  pub provider : Option String
  pub network : Option String

abbrev pub is_stale : Option ℕ → SettlementRecord → Bool
is_stale none r = true
is_stale (some stale_before) r = leb r.updated_at stale_before

abbrev pub agrees : Option String → String → Bool
agrees none value = true
agrees (some wanted) value = value == wanted

abbrev pub agrees_network : Option String → Option String → Bool
agrees_network none value = true
agrees_network (some wanted) none = false
agrees_network (some wanted) (some value) = value == wanted

unfoldable pub queued : QueueFilter → SettlementRecord → Bool
queued q r =
    is_in r.status q.statuses
    && (is_stale q.stale_before r
        && (agrees q.seller_account_id r.seller_account_id
            && (agrees q.provider r.provider && agrees_network q.network r.network)))

abbrev pub no_statuses : List SettlementStatus → Bool
no_statuses [] = true
no_statuses (status ∷ statuses) = false

unfoldable pub list_reconciliation_queue :
    QueueFilter → ℕ → InMemorySettlementStore → List SettlementRecord
unfolding queued
list_reconciliation_queue q limit s =
    if no_statuses q.statuses
    then []
    else take (min limit 100) (sort older (filter (queued q) (stored s)))

unfoldable pub reconciliation_queue_status_counts :
    QueueFilter → InMemorySettlementStore → Dict SettlementStatus ℕ
unfolding queued tally Dict.put Dict.get
reconciliation_queue_status_counts q s =
    if no_statuses q.statuses then [] else tally (queued q) (stored s) []

abbrev pub contains_id : Option ℕ → List SettlementRecord → Bool
contains_id id [] = false
contains_id id (r ∷ rs) = option_beq r.record_id id || contains_id id rs

unfoldable pub settlement_attempt_count_for_seller : String → InMemorySettlementStore → ℕ
settlement_attempt_count_for_seller seller_account_id s =
    count_if
      (λ (attempt : AttemptEntry).
        contains_id attempt.settlement_record_id (filter (of_seller seller_account_id) (stored s)))
      (values s.attempts)

abbrev pub is_successful : SettlementStatus → Bool
is_successful status = is_in status (SettlementStatus.settled ∷ SettlementStatus.reconciled ∷ [])

unfoldable pub latest : List SettlementRecord → Option ℕ
latest [] = none
latest (r ∷ rs) = elim (latest rs) [
  | none ↦ some r.updated_at
  | some time ↦ some (max r.updated_at time)
]

unfoldable pub last_successful_settlement_at_for_seller :
    String → InMemorySettlementStore → Option ℕ
unfolding latest
last_successful_settlement_at_for_seller seller_account_id s =
    latest (filter (λ r. of_seller seller_account_id r && is_successful r.status) (stored s))

unfoldable pub get_record_by_id : ℕ → InMemorySettlementStore → Option SettlementRecord
get_record_by_id record_id s = find (λ r. option_beq r.record_id (some record_id)) (stored s)

abbrev attempts_of : ℕ → Dict ℕ AttemptEntry → List SettlementAttemptRecord
attempts_of record_id [] = []
attempts_of record_id ((attempt_id, attempt) ∷ rest) =
    let others = attempts_of record_id rest in
    if number_of attempt.settlement_record_id == record_id
    then (record {
      attempt_id = attempt_id;
      settlement_record_id = number_of attempt.settlement_record_id;
      trace_id = some attempt.trace_id;
      status = attempt.status;
      started_at = attempt.started_at;
      finished_at = attempt.finished_at;
      transaction = attempt.transaction;
      error_reason = attempt.error_reason;
    })
      ∷ others
    else others

abbrev pub started_later : SettlementAttemptRecord → SettlementAttemptRecord → Bool
started_later a b = leb b.started_at a.started_at

unfoldable pub list_attempts_for_record :
    ℕ → ℕ → InMemorySettlementStore → List SettlementAttemptRecord
list_attempts_for_record record_id limit s =
    take (min limit 100) (sort started_later (attempts_of record_id s.attempts))
