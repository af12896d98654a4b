-- ===== src/Engine/Outcomes.antt =====
-- What the second half of `settle` has written when it answers.
use x402_hosted_facilitator.Common.{
  ℕ, ◌<◌, String, ◌≡◌, refl, sym, ap, ◌∙◌, ◌≢◌, inl, inr, Bool, true, false, ◌&&◌, Option, none,
  some, List, [], ◌∷◌, ok, err, arith, Result, ◌==◌, option_eq, nat_eq, string_eq, count_if,
  Bool-cases, Option-cases, eq_self,
}
use mathlib.Core.Path.{subst}
use x402_hosted_facilitator.Settlement.{SettlementRecord}
use x402_hosted_facilitator.Settlement.Status.{SettlementStatus, SettlementAttemptStatus, status_eq}
use x402_hosted_facilitator.Postgres.{Database, update}
use x402_hosted_facilitator.Postgres.Claim.{has_id}
use x402_hosted_facilitator.Postgres.Finalize.{
  Outcome, set_outcome, in_status, update_in_status, update_record, then_finish, finalize_from,
  no_record_id, expected_statuses, mark_record_and_finish_settle_attempt,
}
use x402_hosted_facilitator.Engine.{
  FacilitatorEnvelope, RequestContext, complete_settle, completed, raised_outcome, then_answer,
  finalize, outcome_of,
}
use x402_hosted_facilitator.Engine.Answers.{
  SettleOutcome, ProviderSettlementStatus, is_settled, provider_status,
}

-- The row of the record is settled with the transaction.
abbrev pub is_recorded : Option ℕ → Option String → SettlementRecord → Bool
is_recorded id transaction r =
    has_id id r && (r.status == SettlementStatus.settled && r.transaction == transaction)

-- An UPDATE that some row passes leaves a row that shows what it wrote.
count-updated :
    {A : Type 0} (test later : A → Bool) (change : A → A)
    → ((x : A) → test x ≡ true → later (change x) ≡ true)
    → (xs : List A) → (count_if test xs == 0) ≡ false
    → 0 < count_if later (update test change xs)
count-updated test later change shows [] h = absurd (cc)
count-updated test later change shows (x ∷ xs) h = elim (Bool-cases (test x)) [
  | inl e ↦ ground (arith, shows x e)
  | inr e ↦ ground (arith, count-updated test later change shows xs)
]

module _ (r : SettlementRecord) (o : Outcome) (now : ℕ)
    (settles : o.status ≡ SettlementStatus.settled) where
  shows_settled :
      (expected : List SettlementStatus) (x : SettlementRecord)
      → in_status r.record_id expected x ≡ true
      → is_recorded r.record_id o.transaction (set_outcome o now x) ≡ true
  shows_settled expected x h =
      let mine : has_id r.record_id x ≡ true = ground arith in
      rw (mine, settles, eq_self o.transaction) refl

  -- If the transition went through, a row shows it.
  abbrev Recorded : Result SettlementRecord × Database → Type 0
  Recorded (ok row, db) = 0 < count_if (is_recorded r.record_id o.transaction) db.settlement_records
  Recorded (err e, db) = Unit

  update_in_status-Recorded :
      (expected : List SettlementStatus) (db : Database)
      → Recorded (update_in_status r expected o now db)
  update_in_status-Recorded expected db =
      elim (Bool-cases (count_if (in_status r.record_id expected) db.settlement_records == 0)) [
        | inl e ↦ rw e tt
        | inr e ↦ rw e (
            count-updated (in_status r.record_id expected) (is_recorded r.record_id o.transaction)
              (set_outcome o now) (shows_settled expected) db.settlement_records e)
      ]

  update_record-Recorded :
      (expected : List SettlementStatus) (db : Database)
      → Recorded (update_record r expected o now db)
  unfolding update_record
  update_record-Recorded expected db = elim (Option-cases r.record_id) [
    | inl e ↦ rw (e, update_record) tt
    | inr (id, e) ↦
        let same : update_record r expected o now db ≡ update_in_status r expected o now db =
          ap
            (λ (key : Option ℕ). elim key as (λ _. Result SettlementRecord × Database) [
              | none ↦ (err no_record_id, db)
              | some _ ↦ update_in_status r expected o now db
            ])
            e in
        subst Recorded (sym same) (update_in_status-Recorded expected db)
  ]

  then_finish-Recorded :
      (attempt_id : ℕ) (attempt_status : SettlementAttemptStatus)
      (m : Result SettlementRecord × Database)
      → Recorded m
      → Recorded (then_finish attempt_id attempt_status o now m)
  then_finish-Recorded attempt_id attempt_status (ok row, db) h = h
  then_finish-Recorded attempt_id attempt_status (err e, db) h = tt

  finalize_from-Recorded :
      (attempt_id : ℕ) (attempt_status : SettlementAttemptStatus)
      (expected : Option (List SettlementStatus)) (db : Database)
      → Recorded (finalize_from r attempt_id attempt_status o now expected db)
  finalize_from-Recorded attempt_id attempt_status none db = tt
  finalize_from-Recorded attempt_id attempt_status (some expected) db =
      then_finish-Recorded attempt_id attempt_status _ (update_record-Recorded expected db)

  then_answer-Recorded :
      (given answer : SettleOutcome) (m : Result SettlementRecord × Database)
      → Recorded m
      → (then_answer given m).0 ≡ ok answer
      → (given ≡ answer)
        × (0
            < count_if
                (is_recorded r.record_id o.transaction)
                (then_answer given m).1.settlement_records)
  then_answer-Recorded given answer (ok row, db) h e = (cc, h)
  then_answer-Recorded given answer (err x, db) h e = absurd (cc)

finalize-recorded :
    (r : SettlementRecord) (attempt_id : ℕ) (given answer : SettleOutcome)
    (status : ProviderSettlementStatus) (now : ℕ) (db : Database)
    → is_settled status ≡ true
    → (finalize r attempt_id given status now db).0 ≡ ok answer
    → (given ≡ answer)
      × (0
          < count_if
              (is_recorded r.record_id given.transaction)
              (finalize r attempt_id given status now db).1.settlement_records)
unfolding mark_record_and_finish_settle_attempt
finalize-recorded r attempt_id given answer ProviderSettlementStatus.settled now db h e =
    then_answer-Recorded r (outcome_of r given ProviderSettlementStatus.settled) now refl given
      answer _
      (finalize_from-Recorded r (outcome_of r given ProviderSettlementStatus.settled) now refl
        attempt_id SettlementAttemptStatus.settled (expected_statuses SettlementStatus.settled) db)
      e
finalize-recorded r attempt_id given answer _ now db h e = absurd (cc)

then_answer-same :
    (given answer : SettleOutcome) (m : Result SettlementRecord × Database)
    → (then_answer given m).0 ≡ ok answer
    → given ≡ answer
then_answer-same given answer (ok row, db) e = cc
then_answer-same given answer (err x, db) e = absurd (cc)

raised_fails :
    (given answer : SettleOutcome) (m : Result SettlementRecord × Database)
    → given.success ≡ false
    → (then_answer given m).0 ≡ ok answer
    → answer.success ≢ true
raised_fails given answer m fails e s =
    absurd (cc (ap (λ (t : SettleOutcome). t.success) (then_answer-same given answer m e)))

-- A settlement that is answered with success to the request that claimed it is recorded: when the
-- answer is given, a row of the record is settled, with the transaction of the answer.
pub complete_settle-recorded :
    (envelope : FacilitatorEnvelope) (context : RequestContext) (provider : String)
    (r : SettlementRecord) (attempt_id : ℕ) (reply : Result SettleOutcome) (now : ℕ) (db : Database)
    (answer : SettleOutcome)
    → (complete_settle envelope context provider r attempt_id reply now db).0 ≡ ok answer
    → answer.success ≡ true
    → 0
      < count_if
          (is_recorded r.record_id answer.transaction)
          (complete_settle envelope context provider r attempt_id reply now db).1.settlement_records
unfolding complete_settle
complete_settle-recorded envelope context provider r attempt_id (err e) now db answer h s =
    absurd (raised_fails (raised_outcome context provider r) answer _ refl h s)
complete_settle-recorded envelope context provider r attempt_id (ok o) now db answer h s =
    let given = completed envelope context provider o in
    let (same, recorded) =
      finalize-recorded r attempt_id given answer (provider_status o) now db
        (ap (λ (t : SettleOutcome). t.success) (then_answer-same given answer _ h) ∙ s) h in
    subst
      (λ (t : SettleOutcome).
        0
        < count_if (is_recorded r.record_id t.transaction)
            (complete_settle envelope context provider r attempt_id (ok o) now
              db).1.settlement_records)
      same recorded
