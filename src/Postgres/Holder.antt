-- ===== src/Postgres/Holder.antt =====
-- What a reconciliation lease guarantees to its holder
-- (src/hosted_facilitator/hosted/postgres.py).
use mathlib.Core.Path.{subst}
use x402_hosted_facilitator.Common.{
  ℕ, ◌<◌, String, ◌≡◌, ◌≢◌, refl, sym, ap, ◌∙◌, inl, inr, true, false, Option, some, List, ◌∷◌,
  arith, ok, nat_eq, option_eq, string_eq, ◌==◌, eq_false, eq_self, count_if, IsIn, filter,
  Option-cases, Result, not,
}
use x402_hosted_facilitator.Postgres.Updates.{
  returning-passed, returned-IsIn, changed-IsIn, filter-update, IsIn-count_if,
}
use x402_hosted_facilitator.Settlement.{SettlementRecord}
use x402_hosted_facilitator.Settlement.Status.{SettlementStatus, is_in, status_eq}
use x402_hosted_facilitator.Postgres.{Database, update, returning}
use x402_hosted_facilitator.Postgres.Claim.{has_id}
use x402_hosted_facilitator.Postgres.Finalize.{Outcome, set_outcome}
use x402_hosted_facilitator.Postgres.Lease.{
  claim_reconciliation_record, set_lease, claimable, claim_lease,
}
use x402_hosted_facilitator.Postgres.Reconcile.{
  update_reconciliation_record, update_owned, update_under_lease, update_leased, leased,
  finish_started_attempts, attempt_status_for,
}

-- Closing the attempts of a record leaves the records alone.
finish-records :
    (id : Option ℕ) (status : SettlementStatus) (now : ℕ) (transaction error_reason : Option String)
    (db : Database)
    → (finish_started_attempts id status now transaction error_reason db).settlement_records
      ≡ db.settlement_records
unfolding finish_started_attempts
finish-records id status now transaction error_reason db =
    elim (Option-cases (attempt_status_for status)) [
      | inl e ↦ rw (e, finish_started_attempts) refl
      | inr (attempt_status, e) ↦ rw (e, finish_started_attempts) refl
    ]

module _ (r : SettlementRecord) (expected : List SettlementStatus) (o : Outcome) (owner : String)
    (now id t : ℕ) (db : Database) where
  -- The transition goes through, and is written to the leased rows.
  abbrev IsWritten : Result SettlementRecord × Database → Type 0
  IsWritten (answer, after) =
      (answer ≡ ok (set_outcome o now r))
      × (after.settlement_records
          ≡ update (leased (some id) expected owner t now) (set_outcome o now)
              db.settlement_records)

  leased-IsWritten :
      (key : Option ℕ)
      → key ≡ some id
      → r.record_id ≡ key
      → 0 < count_if (leased (some id) expected owner t now) db.settlement_records
      → IsWritten (update_leased r expected o owner t now db)
  leased-IsWritten key is_id same some_leased =
      let found : (count_if (leased (some id) expected owner t now) db.settlement_records == 0)
          ≡ false =
        ground arith in
      rw (same ∙ is_id, found)
        (refl, finish-records (some id) o.status now o.transaction o.error_reason _)

  accepted-IsWritten :
      owner ≢ ""
      → r.record_id ≡ some id
      → r.reconciliation_lease_until ≡ some t
      → 0 < count_if (leased (some id) expected owner t now) db.settlement_records
      → IsWritten (update_reconciliation_record r expected o owner now db)
  unfolding update_reconciliation_record
  accepted-IsWritten named is_id is_leased some_leased =
      let at_lease = leased-IsWritten (some id) refl is_id some_leased in
      let at_owned : IsWritten (update_owned r expected o owner (some id) now db) =
        rw (eq_false owner "" named) (
          subst (λ lease. IsWritten (update_under_lease r expected o owner lease now db))
            (sym is_leased) at_lease) in
      subst (λ key. IsWritten (update_owned r expected o owner key now db)) (sym is_id) at_owned

module _ (id : ℕ) (owner : String) (until : ℕ) (status : SettlementStatus)
    (eligible : List SettlementStatus) (stale_before : Option ℕ) (now later : ℕ) (db : Database)
    (r : SettlementRecord) where
  abbrev claimed_rows : List SettlementRecord
  claimed_rows =
      update (claimable id (status ∷ eligible) stale_before now) (set_lease owner until)
        db.settlement_records

  -- The row that a claim returns is leased to the claimer until its end.
  claimed_leased :
      (expected : List SettlementStatus)
      → later < until
      → is_in r.status expected ≡ true
      → returning
          (claimable id (status ∷ eligible) stale_before now)
          (set_lease owner until)
          db.settlement_records
        ≡ some r
      → (r.record_id ≡ some id)
        × (r.reconciliation_lease_until ≡ some until)
        × (leased (some id) expected owner until later r ≡ true)
  claimed_leased expected live allowed got =
      let (x, passed, same) =
        returning-passed (claimable id (status ∷ eligible) stale_before now) (set_lease owner until)
          db.settlement_records r got in
      let is_id : x.record_id ≡ some id =
        ((option_eq {A = ℕ}).beq_iff x.record_id (some id)).0 (ground arith) in
      let own : r.reconciliation_owner ≡ some owner = ap (λ t. t.reconciliation_owner) same in
      let lease : r.reconciliation_lease_until ≡ some until =
        ap (λ t. t.reconciliation_lease_until) same in
      let same_id : r.record_id ≡ some id = ap (λ t. t.record_id) same ∙ is_id in
      let is_leased : leased (some id) expected owner until later r ≡ true =
        rw (same_id, eq_self id, allowed, own, eq_self owner, lease, eq_self until)
          (ground arith) in
      (same_id, lease, is_leased)

  -- The rows of other records.
  abbrev pub others : List SettlementRecord → List SettlementRecord
  others = filter (λ t. not (has_id (some id) t))

  others-claimed : others claimed_rows ≡ others db.settlement_records
  others-claimed =
      filter-update (claimable id (status ∷ eligible) stale_before now) (set_lease owner until)
        (λ t. not (has_id (some id) t)) (λ t passed. ground arith) db.settlement_records

  others-moved :
      (expected : List SettlementStatus) (o : Outcome)
      → others
          (update (leased (some id) expected owner until later) (set_outcome o later) claimed_rows)
        ≡ others claimed_rows
  others-moved expected o =
      filter-update (leased (some id) expected owner until later) (set_outcome o later)
        (λ t. not (has_id (some id) t)) (λ t passed. ground arith) claimed_rows

  -- The named worker whose claim returned a record, and whose transition expects the record's
  -- status, can move it at any time before the lease runs out, if no other step comes in between: the
  -- transition goes through and answers the record with its outcome; that record then stands in the
  -- table, and the rows of all other records are as they were before the claim.
  pub lease_serves :
      (expected : List SettlementStatus) (o : Outcome)
      → owner ≢ ""
      → later < until
      → is_in r.status expected ≡ true
      → (claim_reconciliation_record id owner until (status ∷ eligible) stale_before now db).0
        ≡ ok (some r)
      → let held =
          (claim_reconciliation_record id owner until (status ∷ eligible) stale_before now db).1 in
        let moved = update_reconciliation_record r expected o owner later held in
        (moved.0 ≡ ok (set_outcome o later r))
        × IsIn (set_outcome o later r) moved.1.settlement_records
        × (others moved.1.settlement_records ≡ others db.settlement_records)
  unfolding claim_reconciliation_record
  lease_serves expected o named live allowed claimed =
      let write = claim_lease id owner until (status ∷ eligible) stale_before now db in
      let same : claim_reconciliation_record id owner until (status ∷ eligible) stale_before now db
          ≡ write =
        rw (eq_false owner "" named) refl in
      let answered : write.0 ≡ ok (some r) = sym (ap (λ p. p.0) same) ∙ claimed in
      let got : returning (claimable id (status ∷ eligible) stale_before now)
            (set_lease owner until) db.settlement_records
          ≡ some r =
        cc in
      let (same_id, lease, is_leased) = claimed_leased expected live allowed got in
      let there : IsIn r claimed_rows = returned-IsIn _ _ db.settlement_records r got in
      let (accepted, written) =
        accepted-IsWritten r expected o owner later id until write.1 named same_id lease
          (IsIn-count_if _ claimed_rows r there is_leased) in
      rw same (
        accepted,
        subst (IsIn (set_outcome o later r)) (sym written)
            (changed-IsIn _ (set_outcome o later) claimed_rows r there is_leased),
        ap others written ∙ others-moved expected o ∙ others-claimed,
      )
