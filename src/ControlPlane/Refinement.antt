-- ===== src/ControlPlane/Refinement.antt =====
-- The Postgres control plane implements the in-memory one: they agree on what is paused, and each
-- pause that one accepts the other accepts, and stores the same audit event. The Postgres one answers
-- the event as it reads it from its row, where a reason that says `unspecified` has become
-- `operator_supplied`.
use x402_hosted_facilitator.Common.{
  ℕ, ◌+◌, String, ◌≡◌, refl, sym, ap, ◌∙◌, inl, inr, Bool, true, false, not, Option, none, some,
  List, [], ◌∷◌, ◌==◌, nat_eq, string_eq, if◌then◌else◌, ok, err, Result, Action, arith,
  Option-cases, Bool-cases, filter, eq_self,
}
use x402_hosted_facilitator.Common.Dict
use x402_hosted_facilitator.Common.Dict.{Dict, get-put}
use x402_hosted_facilitator.Tenancy.{contains}
use x402_hosted_facilitator.ControlPlane
use x402_hosted_facilitator.ControlPlane.{
  ControlPlaneTargetType, ControlPlaneAuditEvent, ControlPlanePauseState, PauseRequest,
  InMemoryControlPlaneState, set_membership, normalize_pause_target, pause_event, with_pause,
  network_allowed,
}
use x402_hosted_facilitator.ControlPlane.Names.{
  TextMethods, safe_provider_name, safe_network_or_none,
}
use x402_hosted_facilitator.ControlPlane.Postgres
use x402_hosted_facilitator.ControlPlane.Postgres.{
  Tables, TargetKey, PauseTarget, target_key_eq, target_key_beq, key_of, insert_missing, paused_of,
  event_from_row,
}

contains-filter :
    (values : List String) (value v : String)
    → contains v (filter (λ w. not (w == value)) values)
      ≡ (if value == v then false else contains v values)
contains-filter [] value v = ground arith
contains-filter (w ∷ values) value v =
    let ih = contains-filter values value v in
    elim (Bool-cases (w == value)) [
      | inl e ↦ rw e (
          ground (
            arith,
            ih,
            (string_eq.beq_iff w value).0 e,
            string_eq.beq_iff value v,
            string_eq.beq_iff v w,
          ))
      | inr e ↦ rw e (
          ground (
            arith,
            ih,
            e,
            string_eq.beq_iff w value,
            string_eq.beq_iff value v,
            string_eq.beq_iff v w,
          ))
    ]

-- A set changed at one name.
contains-set_membership :
    (values : List String) (value : String) (on : Bool) (v : String)
    → contains v (set_membership values value on) ≡ (if value == v then on else contains v values)
unfolding set_membership
contains-set_membership values value true v = elim (Bool-cases (contains value values)) [
  | inl e ↦ rw e (ground (arith, e, string_eq.beq_iff value v))
  | inr e ↦ rw e (ground (arith, e, string_eq.beq_iff value v, string_eq.beq_iff v value))
]
contains-set_membership values value false v = contains-filter values value v

-- The targets that a pause can be set on.
abbrev pub Kept : ControlPlaneTargetType → String → Type 0
Kept ControlPlaneTargetType.global target = target ≡ "global"
Kept ControlPlaneTargetType.provider target = Unit
Kept ControlPlaneTargetType.network target = Unit
Kept ControlPlaneTargetType.seller target = ⊥
Kept ControlPlaneTargetType.settlement target = ⊥

is_paused-with_pause :
    (k : ControlPlaneTargetType) (a : String) (j : ControlPlaneTargetType) (b : String) (on : Bool)
    (p : ControlPlanePauseState)
    → Kept k a
    → Kept j b
    → ControlPlane.is_paused j b (with_pause k a on p)
      ≡ (if target_key_beq (key_of k a) (key_of j b) then on else ControlPlane.is_paused j b p)
unfolding ControlPlane.is_paused
is_paused-with_pause ControlPlaneTargetType.global a ControlPlaneTargetType.global b on p h g =
    rw ((string_eq.beq_iff a b).1 (h ∙ sym g)) refl
is_paused-with_pause ControlPlaneTargetType.global a ControlPlaneTargetType.provider b on p h g =
    refl
is_paused-with_pause ControlPlaneTargetType.global a ControlPlaneTargetType.network b on p h g =
    refl
is_paused-with_pause ControlPlaneTargetType.provider a ControlPlaneTargetType.global b on p h g =
    refl
is_paused-with_pause ControlPlaneTargetType.provider a ControlPlaneTargetType.provider b on p h g =
    contains-set_membership p.providers a on b
is_paused-with_pause ControlPlaneTargetType.provider a ControlPlaneTargetType.network b on p h g =
    refl
is_paused-with_pause ControlPlaneTargetType.network a ControlPlaneTargetType.global b on p h g =
    refl
is_paused-with_pause ControlPlaneTargetType.network a ControlPlaneTargetType.provider b on p h g =
    refl
is_paused-with_pause ControlPlaneTargetType.network a ControlPlaneTargetType.network b on p h g =
    contains-set_membership p.networks a on b
is_paused-with_pause ControlPlaneTargetType.seller a j b on p h g = absurd h
is_paused-with_pause ControlPlaneTargetType.settlement a j b on p h g = absurd h
is_paused-with_pause k a ControlPlaneTargetType.seller b on p h g = absurd g
is_paused-with_pause k a ControlPlaneTargetType.settlement b on p h g = absurd g

-- The tables show what the in-memory state holds.
pub record Refines (s : InMemoryControlPlaneState) (t : Tables) : Type 0 where
  pub pauses :
      (k : ControlPlaneTargetType) (a : String)
      → Kept k a
      → Postgres.is_paused (key_of k a) t ≡ ControlPlane.is_paused k a s.pause
  pub audit : t.audit_events ≡ s.audit
  pub next_event_id : t.next_event_id ≡ s.next_event_id

paused-insert_missing :
    (key j : TargetKey) (now : ℕ) (d : Dict TargetKey PauseTarget)
    → paused_of (Dict.get j (insert_missing key (record { paused = false; updated_at = now }) d))
      ≡ paused_of (Dict.get j d)
paused-insert_missing key j now d = elim (Option-cases (Dict.get key d)) [
  | inl e ↦
      rw (e, get-put key j (record { paused = false; updated_at = now }) d)
        (ground (arith, e, target_key_eq.beq_iff key j))
  | inr (row, e) ↦ rw e refl
]

get-insert_missing :
    (key : TargetKey) (now : ℕ) (d : Dict TargetKey PauseTarget)
    → (row : PauseTarget) × (Dict.get key
          (insert_missing key (record { paused = false; updated_at = now }) d)
        ≡ some row)
      × (row.paused ≡ paused_of (Dict.get key d))
get-insert_missing key now d =
    let blank : PauseTarget = record { paused = false; updated_at = now } in
    elim (Option-cases (Dict.get key d)) [
      | inl e ↦ rw (e, get-put key key blank d, eq_self key) (blank, refl, refl)
      | inr (row, e) ↦ rw e (row, e, refl)
    ]

-- The answers of a history of pauses, and the state after it.
abbrev pub history :
    {S : Type 0}
    → (PauseRequest → Action S ControlPlaneAuditEvent)
    → List PauseRequest
    → S
    → List (Result ControlPlaneAuditEvent) × S
history pause [] s = ([], s)
history pause (q ∷ qs) s =
    let (answer, s') = pause q s in
    let (answers, end) = history pause qs s' in (answer ∷ answers, end)

module _ (m : TextMethods) where
  -- The answer to a request, as the Postgres control plane reads it from the stored event.
  abbrev row_read : PauseRequest → Result ControlPlaneAuditEvent → Result ControlPlaneAuditEvent
  row_read q (err e) = err e
  row_read q (ok event) = ok (event_from_row m q.row_uuid4 event)

  abbrev pub rows_read :
      List PauseRequest
      → List (Result ControlPlaneAuditEvent)
      → List (Result ControlPlaneAuditEvent)
  rows_read (q ∷ qs) (answer ∷ answers) = row_read q answer ∷ rows_read qs answers
  rows_read _ _ = []

  normalize-Kept :
      (k : ControlPlaneTargetType) (target : Option String) (a : String)
      → normalize_pause_target m k target ≡ ok a
      → Kept k a
  unfolding normalize_pause_target
  normalize-Kept ControlPlaneTargetType.global target a h = cc
  normalize-Kept ControlPlaneTargetType.provider target a h = tt
  normalize-Kept ControlPlaneTargetType.network target a h = tt
  normalize-Kept ControlPlaneTargetType.seller target a h = absurd (cc)
  normalize-Kept ControlPlaneTargetType.settlement target a h = absurd (cc)

  -- a row of the table after its target was locked and written
  paused-written :
      (key : TargetKey) (new : PauseTarget) (now : ℕ) (j : TargetKey)
      (d : Dict TargetKey PauseTarget)
      → paused_of (
          Dict.get j
            (Dict.put key new (insert_missing key (record { paused = false; updated_at = now }) d)))
        ≡ (if target_key_beq key j then new.paused else paused_of (Dict.get j d))
  paused-written key new now j d =
      let blank : PauseTarget = record { paused = false; updated_at = now } in
      let locked = paused-insert_missing key j now d in
      elim (Bool-cases (key == j)) [
        | inl e ↦ rw (get-put key j new (insert_missing key blank d), e) refl
        | inr e ↦ rw (get-put key j new (insert_missing key blank d), e) locked
      ]

  pause_normalized-Refines :
      (q : PauseRequest) (r : Result String) (s : InMemoryControlPlaneState) (t : Tables)
      → ((a : String) → r ≡ ok a → Kept q.target_type a)
      → Refines s t
      → ((Postgres.pause_normalized m q r t).0
          ≡ row_read q (ControlPlane.pause_normalized m q r s).0)
        × Refines (ControlPlane.pause_normalized m q r s).1 (Postgres.pause_normalized m q r t).1
  pause_normalized-Refines q (err e) s t kept h = (refl, h)
  pause_normalized-Refines q (ok a) s t kept h =
      let here = kept a refl in
      let key = key_of q.target_type a in
      let (row, found, was) = get-insert_missing key q.now t.pause_targets in
      let before : row.paused ≡ ControlPlane.is_paused q.target_type a s.pause =
        unfold Postgres.is_paused in was ∙ h.pauses q.target_type a here in
      let after : ControlPlane.is_paused q.target_type a
            (with_pause q.target_type a q.paused s.pause)
          ≡ q.paused =
        is_paused-with_pause q.target_type a q.target_type a q.paused s.pause here here
        ∙ ap (λ (b : Bool). if b then q.paused else ControlPlane.is_paused q.target_type a s.pause)
            (eq_self key) in
      rw found (
        rw (before, after, h.next_event_id) refl,
        record {
          pauses = λ k b g.
              unfold Postgres.is_paused in
              paused-written key (record { paused = q.paused; updated_at = q.now }) q.now
                (key_of k b) t.pause_targets
              ∙ ap (λ (old : Bool). if target_key_beq key (key_of k b) then q.paused else old)
                  (h.pauses k b g)
              ∙ sym (is_paused-with_pause q.target_type a k b q.paused s.pause here g);
          audit = rw (before, after, h.next_event_id, h.audit) refl;
          next_event_id = ap (λ (n : ℕ). n + 1) h.next_event_id;
        },
      )

  -- A state and its tables answer a pause alike, up to the reading of the row, and refine each other afterwards.
  set_pause-Refines :
      (q : PauseRequest) (s : InMemoryControlPlaneState) (t : Tables)
      → Refines s t
      → ((Postgres.set_pause m q t).0 ≡ row_read q (ControlPlane.set_pause m q s).0)
        × Refines (ControlPlane.set_pause m q s).1 (Postgres.set_pause m q t).1
  unfolding ControlPlane.set_pause Postgres.set_pause
  set_pause-Refines q s t h =
      pause_normalized-Refines q (normalize_pause_target m q.target_type q.target) s t
        (normalize-Kept q.target_type q.target) h

  network-Refines :
      (name : Option String) (s : InMemoryControlPlaneState) (t : Tables)
      → Refines s t
      → Postgres.network_paused m name t ≡ not (network_allowed m name s.pause.networks)
  unfolding ControlPlane.is_paused
  network-Refines none s t h = refl
  network-Refines (some name) s t h =
      ground (arith, h.pauses ControlPlaneTargetType.network name tt)

  allows-Refines :
      (provider_name : String) (network_name : Option String) (s : InMemoryControlPlaneState)
      (t : Tables)
      → Refines s t
      → Postgres.allows m provider_name network_name t
        ≡ ControlPlane.allows m provider_name network_name s
  unfolding ControlPlane.allows Postgres.allows ControlPlane.is_paused
  allows-Refines provider_name network_name s t h =
      let everything = h.pauses ControlPlaneTargetType.global "global" refl in
      let provider =
        h.pauses ControlPlaneTargetType.provider (safe_provider_name m provider_name) tt in
      let network = network-Refines (safe_network_or_none m network_name) s t h in
      rw (everything, provider, network) (ground arith)

  history-Refines :
      (qs : List PauseRequest) (s : InMemoryControlPlaneState) (t : Tables)
      → Refines s t
      → ((history (Postgres.set_pause m) qs t).0
          ≡ rows_read qs (history (ControlPlane.set_pause m) qs s).0)
        × Refines
            (history (ControlPlane.set_pause m) qs s).1
            (history (Postgres.set_pause m) qs t).1
  history-Refines [] s t h = (refl, h)
  history-Refines (q ∷ qs) s t h =
      let (answer, next) = set_pause-Refines q s t h in
      let (answers, end) = history-Refines qs _ _ next in (rw (answer, answers) refl, end)

  nothing_paused :
      (k : ControlPlaneTargetType) (a : String)
      → Kept k a
      → false ≡ ControlPlane.is_paused k a ControlPlane.init.pause
  unfolding ControlPlane.is_paused
  nothing_paused ControlPlaneTargetType.global a g = refl
  nothing_paused ControlPlaneTargetType.provider a g = refl
  nothing_paused ControlPlaneTargetType.network a g = refl
  nothing_paused ControlPlaneTargetType.seller a g = absurd g
  nothing_paused ControlPlaneTargetType.settlement a g = absurd g

  init-Refines : Refines ControlPlane.init Postgres.empty
  unfolding Postgres.is_paused Dict.get
  init-Refines = record {
    pauses = λ k a g. nothing_paused k a g;
    audit = refl;
    next_event_id = refl;
  }

  -- From the empty state and the empty tables, the two control planes refuse the same pauses of any
  -- history, with the same errors, and store the same audit trail; the Postgres one answers a pause
  -- with the event that the in-memory one answers, read back from its row (`event_from_row`, which
  -- makes reason, actor and correlation id safe a second time). Afterwards they let the same requests
  -- through and number the next event alike.
  pub set_pause-SameHistory :
      (qs : List PauseRequest)
      → let memory = history (ControlPlane.set_pause m) qs ControlPlane.init in
        let tables = history (Postgres.set_pause m) qs Postgres.empty in
        (tables.0 ≡ rows_read qs memory.0)
        × ((provider_name : String) (network_name : Option String)
            → Postgres.allows m provider_name network_name tables.1
              ≡ ControlPlane.allows m provider_name network_name memory.1)
        × (tables.1.audit_events ≡ memory.1.audit)
        × (tables.1.next_event_id ≡ memory.1.next_event_id)
  set_pause-SameHistory qs =
      let (answers, end) = history-Refines qs ControlPlane.init Postgres.empty init-Refines in
      (answers, (λ p n. allows-Refines p n _ _ end), end.audit, end.next_event_id)
