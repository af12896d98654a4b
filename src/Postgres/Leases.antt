-- ===== src/Postgres/Leases.antt =====
-- What a reconciliation lease denies while it lasts
-- (src/hosted_facilitator/hosted/postgres.py).
use x402_hosted_facilitator.Common.{
  ℕ, ◌<◌, String, ◌≡◌, ◌≢◌, refl, sym, ap, ◌∙◌, inl, inr, Bool, true, false, Option, none, some,
  List, [], ◌∷◌, arith, ok, err, nat_eq, option_eq, string_eq, ◌==◌, eq_false, count_if, All,
  Bool-cases, Option-cases, find, Result, Action, Error, runtime_error, not, ◌&&◌, ltb,
  if◌then◌else◌,
}
use x402_hosted_facilitator.Postgres.Updates.{update-none, returning-none}
use x402_hosted_facilitator.Settlement.{SettlementRecord}
use x402_hosted_facilitator.Settlement.Status.{SettlementStatus, is_in, status_eq}
use x402_hosted_facilitator.Postgres.{Database}
use x402_hosted_facilitator.Postgres.Claim.{has_id}
use x402_hosted_facilitator.Postgres.Operator.{
  claim_locked, manual_review_locked, with_locked, is_active, not_claimable,
}
use x402_hosted_facilitator.Postgres.Finalize.{Outcome}
use x402_hosted_facilitator.Postgres.Lease.{
  claim_reconciliation_record, set_lease, claimable, is_free, no_owner,
}
use x402_hosted_facilitator.Postgres.Reconcile.{
  update_reconciliation_record, update_owned, update_under_lease, leased,
}

-- A worker holds the record under a lease that has not run out.
abbrev pub IsHeld : ℕ → String → ℕ → ℕ → SettlementRecord → Type 0
IsHeld id holder lease_until now r =
    r.record_id ≡ some id
    → (r.reconciliation_owner ≡ some holder)
      × (r.reconciliation_lease_until ≡ some lease_until)
      × (now < lease_until)

-- The call answers no record, and changes nothing.
abbrev pub Refuses : Result SettlementRecord × Database → Database → Type 0
Refuses (answer, after) db = ((r : SettlementRecord) → answer ≢ ok r) × (after ≡ db)

raised-Refuses : (e : Error) (db : Database) → Refuses (err e, db) db
raised-Refuses e db = ((λ r h. cc), refl)

guarded-Refuses :
    (guard : Bool) (e : Error) (db : Database) (rest : Result SettlementRecord × Database)
    → Refuses rest db
    → Refuses (if guard then (err e, db) else rest) db
guarded-Refuses true e db rest h = raised-Refuses e db
guarded-Refuses false e db rest h = h

module _ (id : ℕ) (holder : String) (lease_until now : ℕ) where
  held_not_claimable :
      (eligible : List SettlementStatus) (stale_before : Option ℕ) (rs : List SettlementRecord)
      → All (IsHeld id holder lease_until now) rs
      → count_if (claimable id eligible stale_before now) rs ≡ 0
  held_not_claimable eligible stale_before [] h = refl
  held_not_claimable eligible stale_before (r ∷ rs) h = elim (Bool-cases (has_id (some id) r)) [
    | inl e ↦
        let same = ((option_eq {A = ℕ}).beq_iff r.record_id (some id)).0 e in
        let (owner, lease, live) = h.0 same in
        ground (arith, held_not_claimable eligible stale_before rs h.1)
    | inr e ↦ rw e (omega (arith, held_not_claimable eligible stale_before rs h.1))
  ]

  held_not_leased :
      (expected : List SettlementStatus) (other : String) (other_lease : ℕ)
      (rs : List SettlementRecord)
      → All (IsHeld id holder lease_until now) rs
      → other ≢ holder
      → count_if (leased (some id) expected other other_lease now) rs ≡ 0
  held_not_leased expected other other_lease [] h ne = refl
  held_not_leased expected other other_lease (r ∷ rs) h ne =
      elim (Bool-cases (has_id (some id) r)) [
        | inl e ↦
            let same = ((option_eq {A = ℕ}).beq_iff r.record_id (some id)).0 e in
            let (owner, lease, live) = h.0 same in
            let not_owner : (r.reconciliation_owner == some other) ≡ false =
              rw owner (eq_false holder other (λ p. ne (sym p))) in
            ground (arith, held_not_leased expected other other_lease rs h.1 ne)
        | inr e ↦ rw e (omega (arith, held_not_leased expected other other_lease rs h.1 ne))
      ]

  -- The row that an operator's transaction locks is held.
  locked_held :
      (row : SettlementRecord) (rs : List SettlementRecord)
      → All (IsHeld id holder lease_until now) rs
      → find (has_id (some id)) rs ≡ some row
      → (row.record_id ≡ some id)
        × (row.reconciliation_owner ≡ some holder)
        × (is_free now row ≡ false)
  locked_held row [] h e = absurd (cc)
  locked_held row (r ∷ rs) h e = elim (Bool-cases (has_id (some id) r)) [
    | inl p ↦
        let same = ((option_eq {A = ℕ}).beq_iff r.record_id (some id)).0 p in
        let (owner, lease, live) = h.0 same in
        let is_row : r ≡ row = ground arith in
        (
          ap (λ x. x.record_id) (sym is_row) ∙ same,
          ap (λ x. x.reconciliation_owner) (sym is_row) ∙ owner,
          ap (is_free now) (sym is_row) ∙ rw lease (ground arith),
        )
    | inr p ↦ locked_held row rs h.1 (ground arith)
  ]

  locked_not_claimable :
      (row : SettlementRecord) (operator : String) (until active_stale_before : ℕ) (db : Database)
      → is_free now row ≡ false
      → Refuses (claim_locked row operator until active_stale_before now db) db
  unfolding claim_locked
  locked_not_claimable row operator until active_stale_before db taken =
      let wrong_status = not (
        is_in row.status (
          SettlementStatus.unknown ∷ SettlementStatus.manual_review ∷ SettlementStatus.submitted
          ∷ SettlementStatus.settle_in_progress ∷ [])) in
      let too_fresh = is_active row.status && ltb active_stale_before row.updated_at in
      let not_stale = runtime_error "Active settlement record is not stale enough to claim" in
      rw taken (
        guarded-Refuses wrong_status not_claimable db _
          (guarded-Refuses too_fresh not_stale db _ (raised-Refuses not_claimable db)))

  locked_not_reviewable :
      (row : SettlementRecord) (other : String) (db : Database)
      → row.reconciliation_owner ≡ some holder
      → other ≢ holder
      → Refuses (manual_review_locked row other now db) db
  unfolding manual_review_locked
  locked_not_reviewable row other db held ne =
      let not_owner : (row.reconciliation_owner == some other) ≡ false =
        rw held (eq_false holder other (λ p. ne (sym p))) in
      rw not_owner (
        guarded-Refuses (not (row.status == SettlementStatus.unknown))
          (runtime_error "Only unknown settlement records can move to manual review") db _
          (raised-Refuses _ db))

  locked-Refuses :
      (action : SettlementRecord → Action Database SettlementRecord) (db : Database)
      → All (IsHeld id holder lease_until now) db.settlement_records
      → ((row : SettlementRecord)
          → row.reconciliation_owner ≡ some holder
          → is_free now row ≡ false
          → Refuses (action row db) db)
      → Refuses (with_locked id action db) db
  unfolding with_locked
  locked-Refuses action db h refused =
      elim (Option-cases (find (has_id (some id)) db.settlement_records)) [
        | inl e ↦ rw (e, with_locked) (raised-Refuses _ db)
        | inr (row, e) ↦
            let (same, owner, taken) = locked_held row db.settlement_records h e in
            rw (e, with_locked) (refused row owner taken)
      ]

  not_leased-Refuses :
      (r : SettlementRecord) (expected : List SettlementStatus) (o : Outcome) (other : String)
      (lease : Option ℕ) (db : Database)
      → All (IsHeld id holder lease_until now) db.settlement_records
      → other ≢ holder
      → r.record_id ≡ some id
      → Refuses (update_under_lease r expected o other lease now db) db
  not_leased-Refuses r expected o other none db h ne is_id = raised-Refuses _ db
  not_leased-Refuses r expected o other (some t) db h ne is_id =
      rw (is_id, held_not_leased expected other t db.settlement_records h ne) (raised-Refuses _ db)

  unowned-Refuses :
      (r : SettlementRecord) (expected : List SettlementStatus) (o : Outcome) (other : String)
      (key : Option ℕ) (db : Database)
      → All (IsHeld id holder lease_until now) db.settlement_records
      → other ≢ holder
      → r.record_id ≡ some id
      → Refuses (update_owned r expected o other key now db) db
  unowned-Refuses r expected o other none db h ne is_id = raised-Refuses _ db
  unowned-Refuses r expected o other (some key) db h ne is_id =
      guarded-Refuses _ _ db _
        (not_leased-Refuses r expected o other r.reconciliation_lease_until db h ne is_id)

  -- A claim of a held record: the empty owner is refused, and any other claimant gets no record.
  claimed_none :
      (db : Database) (claimant : String) (until : ℕ) (eligible : List SettlementStatus)
      (stale_before : Option ℕ)
      → All (IsHeld id holder lease_until now) db.settlement_records
      → claim_reconciliation_record id claimant until eligible stale_before now db
        ≡ (if claimant == "" then err no_owner else ok none, db)
  unfolding claim_reconciliation_record
  claimed_none db claimant until [] stale_before h = elim (Bool-cases (claimant == "")) [
    | inl e ↦ rw e refl
    | inr e ↦ rw e refl
  ]
  claimed_none db claimant until (status ∷ eligible) stale_before h =
      let none_claimable =
        held_not_claimable (status ∷ eligible) stale_before db.settlement_records h in
      elim (Bool-cases (claimant == "")) [
        | inl e ↦ rw e refl
        | inr e ↦ rw e (
            rw (returning-none _ (set_lease claimant until) _ none_claimable)
              (rw (update-none _ (set_lease claimant until) _ none_claimable) refl))
      ]

  -- While one worker holds a record under a lease that has not run out: nobody's claim of that
  -- record gets it, be it another worker's, an operator's or the holder's own; and neither a
  -- transition of it by another owner, who passes any record object with its id, nor an operator's
  -- request under another name to review it goes through. None of them changes the database.
  pub lease_excludes :
      (db : Database) (claimant other : String) (until : ℕ) (eligible : List SettlementStatus)
      (stale_before : Option ℕ) (active_stale_before : ℕ) (r : SettlementRecord)
      (expected : List SettlementStatus) (o : Outcome)
      → All (IsHeld id holder lease_until now) db.settlement_records
      → other ≢ holder
      → r.record_id ≡ some id
      → (claim_reconciliation_record id claimant until eligible stale_before now db
          ≡ (if claimant == "" then err no_owner else ok none, db))
        × Refuses
            (with_locked id (λ row. claim_locked row claimant until active_stale_before now) db)
            db
        × Refuses (update_reconciliation_record r expected o other now db) db
        × Refuses (with_locked id (λ row. manual_review_locked row other now) db) db
  unfolding update_reconciliation_record
  lease_excludes db claimant other until eligible stale_before active_stale_before r expected o h ne
        is_id =
      (
        claimed_none db claimant until eligible stale_before h,
        locked-Refuses _ db h
            (λ row owner. locked_not_claimable row claimant until active_stale_before db),
        unowned-Refuses r expected o other r.record_id db h ne is_id,
        locked-Refuses _ db h (λ row owner taken. locked_not_reviewable row other db owner ne),
      )
