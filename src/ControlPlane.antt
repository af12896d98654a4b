-- ===== src/ControlPlane.antt =====
-- `InMemoryControlPlaneState` (src/hosted_facilitator/hosted/control_plane.py): which providers and
-- networks are paused, and the audit trail. Each method runs under the state's lock, so it is one
-- step; the clock and a uuid4 are arguments.
pub mod Names
pub mod Postgres
pub mod Refinement
use Prim.Native.String.{◌++◌ as append}
use x402_hosted_facilitator.Common.{
  ℕ, ◌+◌, ◌-◌, String, ◌≡◌, ◌↔◌, Bool, true, false, not, ◌&&◌, ◌||◌, Option, none, some, List, [],
  ◌∷◌, ◌++◌, ◌==◌, nat_eq, string_eq, if◌then◌else◌, ok, err, Result, Action, value_error, filter,
  Eq, arith, min, length, drop, reverse,
}
use x402_hosted_facilitator.Tenancy.{contains}
use Names.{
  TextMethods, safe_provider_name, safe_network, safe_network_or_none, safe_reason, safe_actor,
  safe_correlation_id, safe_seller_ref, safe_key_prefix, safe_seller_key_action,
  seller_key_audit_reason,
}

pub data ControlPlaneTargetType : Type 0 where
  global provider network seller settlement : ControlPlaneTargetType

pub record ControlPlaneAuditEvent : Type 0 where
  pub event_id : ℕ
  pub action : String
  pub target_type : ControlPlaneTargetType
  pub target : String
  pub before : Bool
  pub after : Bool
  pub reason : String
  pub actor : String
  pub correlation_id : String
  pub created_at : ℕ

-- the sets hold each name once
pub record ControlPlanePauseState : Type 0 where
  pub global_paused : Bool
  pub providers : List String
  pub networks : List String

pub record InMemoryControlPlaneState : Type 0 where
  pub pause : ControlPlanePauseState
  pub audit : List ControlPlaneAuditEvent
  pub next_event_id : ℕ

abbrev pub init : InMemoryControlPlaneState
init = record {
  pause = record { global_paused = false; providers = []; networks = [] };
  audit = [];
  next_event_id = 1;
}

-- the keyword arguments of `set_pause`, with the time and the uuid4 of the call, and the uuid4 that
-- the Postgres control plane may need to read its row back
pub record PauseRequest : Type 0 where
  pub target_type : ControlPlaneTargetType
  pub target : Option String
  pub paused : Bool
  pub reason : String
  pub actor : String
  pub correlation_id : String
  pub now : ℕ
  pub uuid4 : String
  pub row_uuid4 : String

-- `_set_membership`
unfoldable pub set_membership : List String → String → Bool → List String
set_membership values value true = if contains value values then values else value ∷ values
set_membership values value false = filter (λ v. not (v == value)) values

-- `_is_paused_locked`
unfoldable pub is_paused : ControlPlaneTargetType → String → ControlPlanePauseState → Bool
is_paused ControlPlaneTargetType.global target p = p.global_paused
is_paused ControlPlaneTargetType.provider target p = contains target p.providers
is_paused ControlPlaneTargetType.network target p = contains target p.networks
is_paused _ target p = false

abbrev pub with_pause :
    ControlPlaneTargetType → String → Bool → ControlPlanePauseState → ControlPlanePauseState
with_pause ControlPlaneTargetType.global target paused p = record p { global_paused = paused }
with_pause ControlPlaneTargetType.provider target paused p = record p {
  providers = set_membership p.providers target paused;
}
with_pause ControlPlaneTargetType.network target paused p = record p {
  networks = set_membership p.networks target paused;
}
with_pause _ target paused p = p

abbrev pub given : Option String → Option String
given none = none
given (some text) = if text == "" then none else some text

module _ (m : TextMethods) where
  abbrev provider_target : Option String → Result String
  provider_target none = err (value_error "provider pause requires target")
  provider_target (some target) = ok (safe_provider_name m target)

  abbrev network_target : Option String → Result String
  network_target none = err (value_error "network pause requires target")
  network_target (some target) = safe_network m target

  -- `_normalize_pause_target`
  unfoldable pub normalize_pause_target : ControlPlaneTargetType → Option String → Result String
  normalize_pause_target ControlPlaneTargetType.global target = ok "global"
  normalize_pause_target ControlPlaneTargetType.provider target = provider_target (given target)
  normalize_pause_target ControlPlaneTargetType.network target = network_target (given target)
  normalize_pause_target _ target = err (value_error "unsupported pause target type")

  abbrev pub pause_event : PauseRequest → String → Bool → Bool → ℕ → ControlPlaneAuditEvent
  pause_event q target before after id = record {
    event_id = id;
    action = "pause_set";
    target_type = q.target_type;
    target = target;
    before = before;
    after = after;
    reason = safe_reason m q.reason;
    actor = safe_actor m q.actor;
    correlation_id = safe_correlation_id m q.uuid4 q.correlation_id;
    created_at = q.now;
  }

  -- `self._next_event_id += 1; self._audit.append(event)`
  abbrev pub append_event :
      ControlPlaneAuditEvent → Action InMemoryControlPlaneState ControlPlaneAuditEvent
  append_event event s =
      (ok event, record s { audit = s.audit ++ event ∷ []; next_event_id = s.next_event_id + 1 })

  abbrev pub pause_normalized :
      PauseRequest → Result String → Action InMemoryControlPlaneState ControlPlaneAuditEvent
  pause_normalized q (err e) s = (err e, s)
  pause_normalized q (ok target) s =
      let pause = with_pause q.target_type target q.paused s.pause in
      append_event
        (pause_event q target (is_paused q.target_type target s.pause)
          (is_paused q.target_type target pause) s.next_event_id)
        (record s { pause = pause })

  unfoldable pub set_pause : PauseRequest → Action InMemoryControlPlaneState ControlPlaneAuditEvent
  unfolding normalize_pause_target is_paused set_membership
  set_pause q = pause_normalized q (normalize_pause_target q.target_type q.target)

  abbrev pub network_allowed : Option String → List String → Bool
  network_allowed none networks = true
  network_allowed (some name) networks = not (contains name networks)

  unfoldable pub allows : String → Option String → InMemoryControlPlaneState → Bool
  allows provider_name network_name s =
      if s.pause.global_paused
      then false
      else if contains (safe_provider_name m provider_name) s.pause.providers
      then false
      else network_allowed (safe_network_or_none m network_name) s.pause.networks

  -- the event of a change to a seller account, on whose behalf `q` names the actor
  abbrev pub seller_event :
      String → String → Bool → Bool → String → PauseRequest → ℕ → ControlPlaneAuditEvent
  seller_event action target before after reason q id = record {
    event_id = id;
    action = action;
    target_type = ControlPlaneTargetType.seller;
    target = target;
    before = before;
    after = after;
    reason = reason;
    actor = safe_actor m q.actor;
    correlation_id = safe_correlation_id m q.uuid4 q.correlation_id;
    created_at = q.now;
  }

  abbrev append_seller_event :
      String
      → Bool
      → Bool
      → String
      → PauseRequest
      → Result String
      → Action InMemoryControlPlaneState ControlPlaneAuditEvent
  append_seller_event action before after reason q (err e) s = (err e, s)
  append_seller_event action before after reason q (ok target) s =
      append_event (seller_event action target before after reason q s.next_event_id) s

  -- `record_seller_create`; of the request it takes the actor, the correlation id and the time
  unfoldable pub record_seller_create :
      String → String → PauseRequest → Action InMemoryControlPlaneState ControlPlaneAuditEvent
  record_seller_create seller_account_id key_prefix q =
      append_seller_event "seller_create" false true
        (append "api_key_prefix:" (safe_key_prefix m key_prefix)) q
        (safe_seller_ref m seller_account_id)

  abbrev key_event :
      String
      → String
      → Option String
      → PauseRequest
      → Result String
      → Action InMemoryControlPlaneState ControlPlaneAuditEvent
  key_event seller_account_id key_prefix reason q (err e) s = (err e, s)
  key_event seller_account_id key_prefix reason q (ok action) s =
      let revoked = action == "seller_api_key_revoke" in
      append_seller_event action revoked (action == "seller_api_key_issue")
        (seller_key_audit_reason m key_prefix (if revoked then reason else none)) q
        (safe_seller_ref m seller_account_id) s

  -- `record_seller_key_event`
  unfoldable pub record_seller_key_event :
      String
      → String
      → String
      → Option String
      → PauseRequest
      → Action InMemoryControlPlaneState ControlPlaneAuditEvent
  record_seller_key_event action seller_account_id key_prefix reason q =
      key_event seller_account_id key_prefix reason q (safe_seller_key_action action)

-- `record_external_audit_event`
unfoldable pub record_external_audit_event :
    ControlPlaneAuditEvent → Action InMemoryControlPlaneState ControlPlaneAuditEvent
record_external_audit_event event s =
    let mirrored : ControlPlaneAuditEvent = record event { event_id = s.next_event_id } in
    (
      ok mirrored,
      record s { audit = s.audit ++ mirrored ∷ []; next_event_id = s.next_event_id + 1 },
    )

-- the last `n` events, and the whole list for 0, as the slice `[-n:]` reads
abbrev last_events : ℕ → List ControlPlaneAuditEvent → List ControlPlaneAuditEvent
last_events n events = if n == 0 then events else drop (length events - n) events

-- `audit_tail`
unfoldable pub audit_tail : ℕ → InMemoryControlPlaneState → List ControlPlaneAuditEvent
audit_tail limit s = reverse (last_events (min limit 100) s.audit)
