-- ===== src/Postgres/Transition.antt =====
-- Which statuses a record may move through, and what every step keeps of a row.
use x402_hosted_facilitator.Common.{
  ◌≡◌, refl, ◌∙◌, ◌⊎◌, inl, inr, Bool, true, false, List, [], ◌∷◌, arith, nat_eq, Bool-cases,
}
use x402_hosted_facilitator.Common.Evolution.{Evolves, Rowwise}
use x402_hosted_facilitator.Settlement.{SettlementRecord}
use x402_hosted_facilitator.Settlement.Status.{SettlementStatus, is_in, status_eq}
use x402_hosted_facilitator.Settlement.Identity.{record_key, replay_key}
use x402_hosted_facilitator.Postgres.{update}

-- The moves that the store makes, read as a diagram.
abbrev pub can_move : SettlementStatus → SettlementStatus → Bool
can_move SettlementStatus.settle_in_progress t = is_in t (
    SettlementStatus.submitted ∷ SettlementStatus.settled ∷ SettlementStatus.settle_failed
    ∷ SettlementStatus.unknown ∷ [])
can_move SettlementStatus.submitted t =
    is_in t (SettlementStatus.settled ∷ SettlementStatus.unknown ∷ [])
can_move SettlementStatus.unknown t = is_in t (
    SettlementStatus.settled ∷ SettlementStatus.settle_failed ∷ SettlementStatus.manual_review ∷ [])
can_move _ t = false

-- The statuses in which a settlement ends: nothing leads out of them.
abbrev pub is_final : SettlementStatus → Bool
is_final SettlementStatus.settle_in_progress = false
is_final SettlementStatus.submitted = false
is_final SettlementStatus.unknown = false
is_final _ = true

infix 40 ◌⟶*◌
pub data ◌⟶*◌ : SettlementStatus → SettlementStatus → Type 0 where
  here : {s : SettlementStatus} → s ⟶* s
  move : {s t u : SettlementStatus} → can_move s t ≡ true → t ⟶* u → s ⟶* u

pub ⟶*-trans : {s t u : SettlementStatus} → s ⟶* t → t ⟶* u → s ⟶* u
⟶*-trans here q = q
⟶*-trans (move m p) q = move m (⟶*-trans p q)

final_stuck : (s t : SettlementStatus) → is_final s ≡ true → can_move s t ≡ true → ⊥
final_stuck s t f m = ground arith

abbrev pub SameIdentity : SettlementRecord → SettlementRecord → Type 0
SameIdentity r t =
    (record_key t ≡ record_key r) × (replay_key t ≡ replay_key r) × (t.record_id ≡ r.record_id)

abbrev pub SameOutcome : SettlementRecord → SettlementRecord → Type 0
SameOutcome r t =
    (t.status ≡ r.status)
    × (t.transaction ≡ r.transaction)
    × (t.payer ≡ r.payer)
    × (t.error_reason ≡ r.error_reason)

-- One step of a row: it keeps its identity, and moves along the diagram or keeps its outcome.
abbrev pub RowStep : SettlementRecord → SettlementRecord → Type 0
RowStep r t = SameIdentity r t × ((can_move r.status t.status ≡ true) ⊎ SameOutcome r t)

-- Any number of steps: a final outcome stays as it is.
abbrev pub Keeps : SettlementRecord → SettlementRecord → Type 0
Keeps r t = SameIdentity r t × (r.status ⟶* t.status) × (is_final r.status ≡ true → SameOutcome r t)

pub RowStep-refl : (r : SettlementRecord) → RowStep r r
RowStep-refl r = ((refl, refl, refl), inr (refl, refl, refl, refl))

pub Keeps-refl : (r : SettlementRecord) → Keeps r r
Keeps-refl r = ((refl, refl, refl), here, λ f. (refl, refl, refl, refl))

pub Keeps-step : (r t u : SettlementRecord) → RowStep r t → Keeps t u → Keeps r u
Keeps-step r t u (same, inl m) k =
    (ground arith, move m k.1, λ f. absurd (final_stuck r.status t.status f m))
Keeps-step r t u (same, inr o) k = (
  ground arith,
  rw (← o.0) k.1,
  λ f. let rest = k.2 (rw o.0 f) in (rest.0 ∙ o.0, rest.1 ∙ o.1, rest.2 ∙ o.2, rest.3 ∙ o.3),
)

-- An UPDATE whose WHERE lets only such steps through.
pub update-RowStep :
    (test : SettlementRecord → Bool) (change : SettlementRecord → SettlementRecord)
    → ((r : SettlementRecord) → test r ≡ true → RowStep r (change r))
    → (rs : List SettlementRecord) → Rowwise RowStep rs (update test change rs)
update-RowStep test change ok [] = tt
update-RowStep test change ok (r ∷ rs) = (
  elim (Bool-cases (test r)) [ inl e ↦ rw e (ok r e) | inr e ↦ rw e (RowStep-refl r) ],
  update-RowStep test change ok rs,
)

pub Evolves-step :
    (xs ys zs : List SettlementRecord)
    → Evolves RowStep xs ys
    → Evolves Keeps ys zs
    → Evolves Keeps xs zs
Evolves-step [] ys zs p q = tt
Evolves-step (x ∷ xs) [] zs p q = absurd p
Evolves-step (x ∷ xs) (y ∷ ys) [] p q = q
Evolves-step (x ∷ xs) (y ∷ ys) (z ∷ zs) p q =
    (Keeps-step x y z p.0 q.0, Evolves-step xs ys zs p.1 q.1)
