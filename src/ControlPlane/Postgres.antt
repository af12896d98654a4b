-- ===== src/ControlPlane/Postgres.antt =====
-- `PostgresControlPlaneState` (src/hosted_facilitator/hosted/postgres.py) on its two tables.
-- (target_type, target) is the primary key of the pause targets; `set_pause` is one transaction.
use x402_hosted_facilitator.Common.{
  ℕ, ◌+◌, String, ◌≡◌, ◌↔◌, Bool, true, false, not, ◌&&◌, ◌||◌, Option, none, some, List, [], ◌∷◌,
  ◌++◌, ◌==◌, nat_eq, string_eq, ok, err, Result, Action, runtime_error, Eq, arith,
}
use x402_hosted_facilitator.Common.Dict
use x402_hosted_facilitator.Common.Dict.{Dict}
use x402_hosted_facilitator.ControlPlane.{
  ControlPlaneTargetType, ControlPlaneAuditEvent, PauseRequest, normalize_pause_target, pause_event,
}
use x402_hosted_facilitator.ControlPlane.Names.{
  TextMethods, safe_provider_name, safe_network_or_none, safe_reason, safe_actor,
  safe_correlation_id,
}

pub record TargetKey : Type 0 where
  pub target_type : ControlPlaneTargetType
  pub target : String

abbrev pub type_position : ControlPlaneTargetType → ℕ
type_position ControlPlaneTargetType.global = 0
type_position ControlPlaneTargetType.provider = 1
type_position ControlPlaneTargetType.network = 2
type_position ControlPlaneTargetType.seller = 3
type_position ControlPlaneTargetType.settlement = 4

abbrev pub target_key_beq : TargetKey → TargetKey → Bool
target_key_beq a b =
    type_position a.target_type == type_position b.target_type && a.target == b.target

type_position_iff :
    (a b : ControlPlaneTargetType) → ((type_position a == type_position b) ≡ true) ↔ (a ≡ b)
type_position_iff a b = ground arith

pub target_key_beq_iff : (a b : TargetKey) → (target_key_beq a b ≡ true) ↔ (a ≡ b)
target_key_beq_iff a b =
    ground
      (arith, type_position_iff a.target_type b.target_type, string_eq.beq_iff a.target b.target)

instance abbrev pub target_key_eq : Eq TargetKey
target_key_eq = record { beq = target_key_beq; beq_iff = target_key_beq_iff }

-- the columns of a pause target that are no key
pub record PauseTarget : Type 0 where
  pub paused : Bool
  pub updated_at : ℕ

pub record Tables : Type 0 where
  pub pause_targets : Dict TargetKey PauseTarget
  pub audit_events : List ControlPlaneAuditEvent
  pub next_event_id : ℕ

abbrev pub empty : Tables
empty = record { pause_targets = []; audit_events = []; next_event_id = 1 }

abbrev pub key_of : ControlPlaneTargetType → String → TargetKey
key_of target_type target = record { target_type = target_type; target = target }

abbrev pub paused_of : Option PauseTarget → Bool
paused_of none = false
paused_of (some row) = row.paused

-- `_is_paused`
unfoldable pub is_paused : TargetKey → Tables → Bool
is_paused key t = paused_of (Dict.get key t.pause_targets)

abbrev pub insert_unless :
    Option PauseTarget
    → TargetKey
    → PauseTarget
    → Dict TargetKey PauseTarget
    → Dict TargetKey PauseTarget
insert_unless none key row targets = Dict.put key row targets
insert_unless (some _) key row targets = targets

-- INSERT .. ON CONFLICT (target_type, target) DO NOTHING
abbrev pub insert_missing :
    TargetKey → PauseTarget → Dict TargetKey PauseTarget → Dict TargetKey PauseTarget
insert_missing key row targets = insert_unless (Dict.get key targets) key row targets

abbrev pub write_target : TargetKey → PauseTarget → Tables → Tables
write_target key row t = record t { pause_targets = Dict.put key row t.pause_targets }

module _ (m : TextMethods) where
  -- `_control_plane_audit_event_from_mapping`, of the row of a pause: the texts are made safe again
  unfoldable pub event_from_row : String → ControlPlaneAuditEvent → ControlPlaneAuditEvent
  event_from_row uuid4 row = record row {
    reason = safe_reason m row.reason;
    actor = safe_actor m row.actor;
    correlation_id = safe_correlation_id m uuid4 row.correlation_id;
  }

  -- the audit event is stored, and the answer is read from the row that is returned
  abbrev pub insert_event : PauseRequest → String → Bool → Action Tables ControlPlaneAuditEvent
  insert_event q target before t =
      let event = pause_event m q target before q.paused t.next_event_id in
      (
        ok (event_from_row q.row_uuid4 event),
        record t {
          audit_events = t.audit_events ++ event ∷ [];
          next_event_id = t.next_event_id + 1;
        },
      )

  -- once the row is locked; `t` is what a raise rolls back to
  abbrev pub pause_locked :
      PauseRequest → String → Option PauseTarget → Tables → Action Tables ControlPlaneAuditEvent
  pause_locked q target none t inserted =
      (err (runtime_error "Postgres control-plane pause target was not locked"), t)
  pause_locked q target (some locked) t inserted = insert_event q target locked.paused (
      write_target (key_of q.target_type target) (record { paused = q.paused; updated_at = q.now })
        inserted)

  abbrev pub pause_normalized : PauseRequest → Result String → Action Tables ControlPlaneAuditEvent
  pause_normalized q (err e) t = (err e, t)
  pause_normalized q (ok target) t =
      let key = key_of q.target_type target in
      let targets =
        insert_missing key (record { paused = false; updated_at = q.now }) t.pause_targets in
      pause_locked q target (Dict.get key targets) t (record t { pause_targets = targets })

  unfoldable pub set_pause : PauseRequest → Action Tables ControlPlaneAuditEvent
  set_pause q = pause_normalized q (normalize_pause_target m q.target_type q.target)

  abbrev pub network_paused : Option String → Tables → Bool
  network_paused none t = false
  network_paused (some name) t = is_paused (key_of ControlPlaneTargetType.network name) t

  -- no row of the request's targets is paused
  unfoldable pub allows : String → Option String → Tables → Bool
  unfolding is_paused
  allows provider_name network_name t = not (
      is_paused (key_of ControlPlaneTargetType.global "global") t
      || (is_paused (key_of ControlPlaneTargetType.provider (safe_provider_name m provider_name)) t
          || network_paused (safe_network_or_none m network_name) t))
