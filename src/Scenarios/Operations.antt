-- ===== src/Scenarios/Operations.antt =====
-- Pauses, rate limits, reports and the reconciliation loop at concrete inputs.
use Prim.Native.Char.{Char}
use x402_hosted_facilitator.Common.{
  ℕ, ◌+◌, String, ◌≡◌, ◌↔◌, refl, Bool, true, false, Option, none, some, List, [], ◌∷◌, ◌==◌,
  string_eq, if◌then◌else◌, All, min, filter, arith, Result,
}
use x402_hosted_facilitator.Common.Sort.{IsFirst}
use x402_hosted_facilitator.Common.Dict
use x402_hosted_facilitator.Common.Dict.{Dict, get-put}
use x402_hosted_facilitator.Json.{Fields}
use x402_hosted_facilitator.Settlement.{ClaimRequest}
use x402_hosted_facilitator.Settlement.Status.{SettlementStatus, status_eq}
use x402_hosted_facilitator.MemoryStore
use x402_hosted_facilitator.MemoryStore.{InMemorySettlementStore}
use x402_hosted_facilitator.MemoryStore.Queries.{
  stored, settlement_status_counts, settlement_status_counts_for_seller, of_seller, newer, older,
  list_recent_records, list_recent_records_for_seller, no_statuses, list_reconciliation_queue,
  queued, QueueFilter, number_of, reconciliation_queue_status_counts,
}
use x402_hosted_facilitator.MemoryStore.Reports.{
  number, shown, status_counts-number, lists-AreFirst, queue_status_counts-number,
}
use x402_hosted_facilitator.ControlPlane
use x402_hosted_facilitator.ControlPlane.{
  ControlPlaneTargetType, PauseRequest, InMemoryControlPlaneState, ControlPlaneAuditEvent,
}
use x402_hosted_facilitator.ControlPlane.Names.{TextMethods, safe_reason}
use x402_hosted_facilitator.ControlPlane.Postgres
use x402_hosted_facilitator.ControlPlane.Postgres.{Tables}
use x402_hosted_facilitator.ControlPlane.Refinement.{history, rows_read, set_pause-SameHistory}
use x402_hosted_facilitator.RateLimit
use x402_hosted_facilitator.RateLimit.{count, counter_key_eq, Counters}
use x402_hosted_facilitator.RateLimit.Buckets.{
  RateLimitRequest, HostedRateLimitEndpoint, default_rate_limit_policy, buckets_for_request,
}
use x402_hosted_facilitator.RateLimit.Bounds.{HasRoom}
use x402_hosted_facilitator.RateLimit.Verdict.{check-allows_iff}
use x402_hosted_facilitator.RateLimit.Redis
use x402_hosted_facilitator.RateLimit.Redis.{RedisCommands, RedisLaws}
use x402_hosted_facilitator.RateLimit.Shared.{Agrees, check-SameVerdict}
use x402_hosted_facilitator.Runner
use x402_hosted_facilitator.Runner.{Surroundings, RunResult}
use x402_hosted_facilitator.Runner.Ends.{EndsWithin, run-EndsWithin}

abbrev any_char : Char → Bool
any_char c = true

abbrev methods : TextMethods
methods = record {
  isalnum = any_char;
  isdigit = any_char;
  strip = λ text. text;
  joined_words = λ text. text;
}

abbrev pause_of : ControlPlaneTargetType → Option String → Bool → PauseRequest
pause_of target_type target paused = record {
  target_type = target_type;
  target = target;
  paused = paused;
  reason = "maintenance";
  actor = "ops";
  correlation_id = "c1";
  now = 7;
  uuid4 = "u1";
  row_uuid4 = "u2";
}

-- a provider is paused, everything is paused and goes on, and a seller cannot be paused
abbrev pauses : List PauseRequest
pauses =
    pause_of ControlPlaneTargetType.provider (some "exact_evm") true
    ∷ pause_of ControlPlaneTargetType.global none true
    ∷ pause_of ControlPlaneTargetType.global none false
    ∷ pause_of ControlPlaneTargetType.seller (some "acme") true
    ∷ []

abbrev memory : List (Result ControlPlaneAuditEvent) × InMemoryControlPlaneState
memory = history (ControlPlane.set_pause methods) pauses ControlPlane.init

abbrev tables : List (Result ControlPlaneAuditEvent) × Tables
tables = history (Postgres.set_pause methods) pauses Postgres.empty

-- a blank reason is stored as unspecified, and read back as one that the operator supplied
blank_reason :
    (safe_reason methods "" ≡ "unspecified")
    × (safe_reason methods (safe_reason methods "") ≡ "operator_supplied")
unfolding safe_reason
blank_reason = (refl, refl)

set_pause-SameHistory_example :
    (tables.0 ≡ rows_read methods pauses memory.0)
    × ((provider_name : String) (network_name : Option String)
        → Postgres.allows methods provider_name network_name tables.1
          ≡ ControlPlane.allows methods provider_name network_name memory.1)
    × (tables.1.audit_events ≡ memory.1.audit)
    × (tables.1.next_event_id ≡ memory.1.next_event_id)
set_pause-SameHistory_example = set_pause-SameHistory methods pauses

-- a server whose keys do not expire
abbrev value_at : String → Dict String ℕ → ℕ
value_at key s = number_of (Dict.get key s)

abbrev server : RedisCommands (Dict String ℕ)
server = record {
  get = value_at;
  ttl = λ key s. none;
  incr = λ key s. (value_at key s + 1, Dict.put key (value_at key s + 1) s);
  expire = λ key ttl s. s;
}

value_at-put :
    (k j : String) (s : Dict String ℕ)
    → value_at j (Dict.put k (value_at k s + 1) s)
      ≡ (if k == j then value_at k s + 1 else value_at j s)
value_at-put k j s = ground (arith, get-put k j (value_at k s + 1) s)

server_laws : RedisLaws server
server_laws = record {
  incr_answer = λ k s. refl;
  get_incr = value_at-put;
  get_expire = λ k j ttl s positive. refl;
}

abbrev from_host : RateLimitRequest
from_host = record {
  endpoint = HostedRateLimitEndpoint.verify;
  seller_account_id = none;
  tenant_id = none;
  client_host = some "10.0.0.1";
  policy = default_rate_limit_policy;
}

abbrev digits : ℕ → String
digits n = "0"

agrees :
    Agrees server server_laws any_char digits "rl" from_host 30 [] []
      (buckets_for_request any_char from_host)
unfolding buckets_for_request count Dict.get
agrees = (refl, tt)

check-SameVerdict_example :
    ((Redis.check server any_char digits "rl" from_host 30 []).0.allowed
      ≡ (RateLimit.check any_char from_host 30 []).0.allowed)
    × Agrees server server_laws any_char digits "rl" from_host 30
        (RateLimit.check any_char from_host 30 []).1
        (Redis.check server any_char digits "rl" from_host 30 []).1
        (buckets_for_request any_char from_host)
check-SameVerdict_example =
    check-SameVerdict server server_laws any_char digits "rl" from_host 30 [] [] agrees

check-allows_iff_example :
    ((RateLimit.check any_char from_host 30 []).0.allowed ≡ true)
    ↔ All (HasRoom 30 []) (buckets_for_request any_char from_host)
check-allows_iff_example = check-allows_iff any_char from_host 30 []

abbrev claim : ClaimRequest
claim = record {
  seller_account_id = "acme";
  payment_profile_id = "default";
  fingerprint = "f00d";
  provider = "exact_evm";
  scheme = some "exact";
  network = some "eip155:5042002";
  trace_id = "trace-1";
  raw_requirements = Fields.end;
}

-- a store with one record, in progress
abbrev store : InMemorySettlementStore
store = (MemoryStore.claim_for_settlement (λ text. text) claim 5 MemoryStore.init).1

status_counts-number_example :
    (Dict.get SettlementStatus.settle_in_progress (settlement_status_counts store)
      ≡ shown (number (λ r. true) SettlementStatus.settle_in_progress (stored store)))
    × (Dict.get SettlementStatus.settle_in_progress
          (settlement_status_counts_for_seller "acme" store)
        ≡ shown (number (of_seller "acme") SettlementStatus.settle_in_progress (stored store)))
status_counts-number_example = status_counts-number store "acme" SettlementStatus.settle_in_progress

abbrev open_records : QueueFilter
open_records = record {
  statuses = SettlementStatus.unknown ∷ SettlementStatus.settle_in_progress ∷ [];
  stale_before = some 60;
  seller_account_id = some "acme";
  provider = none;
  network = none;
}

lists-AreFirst_example :
    IsFirst newer (min 25 100) (stored store) (list_recent_records 25 store)
    × IsFirst newer
        (min 25 100)
        (filter (of_seller "acme") (stored store))
        (list_recent_records_for_seller "acme" 25 store)
    × (no_statuses open_records.statuses ≡ true
        → list_reconciliation_queue open_records 25 store ≡ [])
    × (no_statuses open_records.statuses ≡ false
        → IsFirst older
            (min 25 100)
            (filter (queued open_records) (stored store))
            (list_reconciliation_queue open_records 25 store))
lists-AreFirst_example = lists-AreFirst store "acme" open_records 25

queue_status_counts-number_example :
    number_of (
      Dict.get SettlementStatus.settle_in_progress
        (reconciliation_queue_status_counts open_records store))
    ≡ number (queued open_records) SettlementStatus.settle_in_progress (stored store)
queue_status_counts-number_example =
    queue_status_counts-number store open_records SettlementStatus.settle_in_progress

-- a reconciler that fails every time, on a clock that only moves
abbrev failing : Surroundings ℕ
failing = record {
  is_set = λ w. (false, w);
  run_once = λ w. (RunResult.failed "no database", w + 1);
  callback_raises = λ stats w. (false, w);
  clock = λ w. (w, w + 1);
  sleep = λ seconds w. w + seconds;
}

run-EndsWithin_example : EndsWithin 3 (Runner.run failing 5 30 (some 3) 3 0).0
run-EndsWithin_example = run-EndsWithin failing 5 30 3 0 (omega arith)
