-- ===== src/Postgres/OperatorSteps.antt =====
-- The operators' actions on a locked record move every row one step at most.
use x402_hosted_facilitator.Common.{
  ℕ, String, ◌≡◌, refl, inl, inr, true, ◌&&◌, Option, none, some, [], ◌∷◌, ok, err, arith, nat_eq,
  option_eq, string_eq, Result, Action, ◌==◌, Bool-cases, Option-cases, find, ltb,
}
use x402_hosted_facilitator.Settlement.{SettlementRecord}
use x402_hosted_facilitator.Settlement.Status.{SettlementStatus, is_in, status_eq}
use x402_hosted_facilitator.Postgres.{Database}
use x402_hosted_facilitator.Postgres.Claim.{has_id}
use x402_hosted_facilitator.Postgres.Lease.{owned, clear_lease, is_free}
use x402_hosted_facilitator.Postgres.Reconcile.{leased}
use x402_hosted_facilitator.Postgres.Operator.{
  claim_locked, release_locked, manual_review_locked, with_locked, reviewed, set_operator_lease,
  review_leased, after_review, is_active, not_leased_by_operator, must_be_claimed, not_claimable,
}
use x402_hosted_facilitator.Postgres.Transition.{RowStep, update-RowStep}
use x402_hosted_facilitator.Postgres.Steps.{
  DatabaseStep, DatabaseStep-refl, same-DatabaseStep, update_or_raise-DatabaseStep,
  finish_started-DatabaseStep,
}

module _ (r : SettlementRecord) (owner : String) (now : ℕ) (db : Database) where
  pub claim_locked-DatabaseStep :
      (lease_until active_stale_before : ℕ)
      → DatabaseStep db (claim_locked r owner lease_until active_stale_before now db).1
  unfolding claim_locked
  claim_locked-DatabaseStep lease_until active_stale_before =
      elim (Bool-cases (
        is_in r.status (
          SettlementStatus.unknown ∷ SettlementStatus.manual_review ∷ SettlementStatus.submitted
          ∷ SettlementStatus.settle_in_progress ∷ []))) [
            | inr e ↦ rw e (DatabaseStep-refl db)
            | inl e ↦
                elim (Bool-cases (is_active r.status && ltb active_stale_before r.updated_at)) [
                  | inl f ↦ rw e (rw f (DatabaseStep-refl db))
                  | inr f ↦ elim (Bool-cases (is_free now r)) [
                    | inr g ↦ rw e (rw f (rw g (DatabaseStep-refl db)))
                    | inl g ↦ rw e (
                        rw f (
                          rw g (
                            update_or_raise-DatabaseStep not_claimable _ _ db (
                              same-DatabaseStep (has_id r.record_id)
                                (set_operator_lease owner lease_until now) db
                                (λ t. ((refl, refl, refl), (refl, refl, refl, refl)))))))
                  ]
                ]
          ]

  pub release_locked-DatabaseStep : DatabaseStep db (release_locked r owner now db).1
  unfolding release_locked
  release_locked-DatabaseStep = elim (Bool-cases (r.reconciliation_owner == some owner)) [
    | inr e ↦ rw e (DatabaseStep-refl db)
    | inl e ↦ rw e (
        update_or_raise-DatabaseStep not_leased_by_operator _ _ db (
          same-DatabaseStep (owned r.record_id owner) (clear_lease now) db
            (λ t. ((refl, refl, refl), (refl, refl, refl, refl)))))
  ]

  reviewed-RowStep :
      (lease_until : ℕ) (t : SettlementRecord)
      → leased r.record_id (SettlementStatus.unknown ∷ []) owner lease_until now t ≡ true
      → RowStep t (reviewed now t)
  reviewed-RowStep lease_until t h = ((refl, refl, refl), inl (ground arith))

  after_review-DatabaseStep :
      (m : Result SettlementRecord × Database)
      → DatabaseStep db m.1
      → DatabaseStep db (after_review r now db m).1
  after_review-DatabaseStep (err e, db') h = DatabaseStep-refl db
  after_review-DatabaseStep (ok row, db') h =
      finish_started-DatabaseStep db db' r.record_id SettlementStatus.manual_review now
        r.transaction (some "manual_review_operator_requested") h

  review_leased-DatabaseStep :
      (lease : Option ℕ) → DatabaseStep db (review_leased r owner lease now db).1
  review_leased-DatabaseStep none = DatabaseStep-refl db
  review_leased-DatabaseStep (some t) = after_review-DatabaseStep _ (
      update_or_raise-DatabaseStep must_be_claimed _ (reviewed now) db
        (update-RowStep _ (reviewed now) (reviewed-RowStep t) db.settlement_records))

  pub manual_review_locked-DatabaseStep : DatabaseStep db (manual_review_locked r owner now db).1
  unfolding manual_review_locked
  manual_review_locked-DatabaseStep = elim (Bool-cases (r.status == SettlementStatus.unknown)) [
    | inr e ↦ rw e (DatabaseStep-refl db)
    | inl e ↦ elim (Bool-cases (r.reconciliation_owner == some owner)) [
      | inr f ↦ rw e (rw f (DatabaseStep-refl db))
      | inl f ↦ rw e (rw f (review_leased-DatabaseStep r.reconciliation_lease_until))
    ]
  ]

pub with_locked-DatabaseStep :
    (id : ℕ) (action : SettlementRecord → Action Database SettlementRecord) (db : Database)
    → ((r : SettlementRecord) → DatabaseStep db (action r db).1)
    → DatabaseStep db (with_locked id action db).1
unfolding with_locked
with_locked-DatabaseStep id action db h =
    elim (Option-cases (find (has_id (some id)) db.settlement_records)) [
      | inl e ↦ rw (e, with_locked) (DatabaseStep-refl db)
      | inr (r, e) ↦ rw (e, with_locked) (h r)
    ]
