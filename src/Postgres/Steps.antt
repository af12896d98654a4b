-- ===== src/Postgres/Steps.antt =====
-- Each method of `PostgresSettlementStore` moves every row one step at most.
use x402_hosted_facilitator.Common.{
  ℕ, String, ◌≡◌, refl, ◌⊎◌, inl, inr, Bool, true, Option, none, some, List, [], ◌∷◌, ok, err,
  arith, nat_eq, option_eq, string_eq, Error, Result, ◌==◌, Bool-cases, Option-cases, find,
  count_if,
}
use x402_hosted_facilitator.Common.Evolution.{Rowwise, Rowwise-refl}
use x402_hosted_facilitator.Settlement.{SettlementRecord, ClaimRequest}
use x402_hosted_facilitator.Settlement.Status.{
  SettlementStatus, SettlementAttemptStatus, is_in, status_eq,
}
use x402_hosted_facilitator.Postgres.{Database, update, returning, write_records}
use x402_hosted_facilitator.Postgres.Payment.{payment_eq}
use x402_hosted_facilitator.Settlement.Identity.{record_key_eq, requested_key}
use x402_hosted_facilitator.Postgres.Claim.{
  claim_and_start_settle_attempt, start_settle_attempt, finish_settle_attempt, has_payment, has_key,
  answer_claimed, answer_duplicate,
}
use x402_hosted_facilitator.Postgres.Finalize.{
  Outcome, set_outcome, in_status, update_record, update_in_status, finalize_from, then_finish,
}
use x402_hosted_facilitator.Postgres.Lease.{
  claim_reconciliation_record, release_reconciliation_record,
}
use x402_hosted_facilitator.Postgres.Reconcile.{
  update_reconciliation_record, finish_started_attempts, leased, attempt_status_for, update_leased,
  update_under_lease, update_owned,
}
use x402_hosted_facilitator.Postgres.Operator.{update_or_raise}
use x402_hosted_facilitator.Postgres.Transition.{
  RowStep, RowStep-refl, SameOutcome, SameIdentity, can_move, update-RowStep,
}

-- The step between two databases: their records evolve by one step each.
abbrev pub DatabaseStep : Database → Database → Type 0
DatabaseStep db db' = Rowwise RowStep db.settlement_records db'.settlement_records

pub DatabaseStep-refl : (db : Database) → DatabaseStep db db
DatabaseStep-refl db = Rowwise-refl RowStep RowStep-refl db.settlement_records

-- An UPDATE that leaves the outcome alone.
pub same-DatabaseStep :
    (test : SettlementRecord → Bool) (change : SettlementRecord → SettlementRecord) (db : Database)
    → ((r : SettlementRecord) → SameIdentity r (change r) × SameOutcome r (change r))
    → DatabaseStep db (write_records (update test change db.settlement_records) db)
same-DatabaseStep test change db same =
    update-RowStep test change (λ r _. ((same r).0, inr (same r).1)) db.settlement_records

module _ (sha256_hexdigest : String → String) (q : ClaimRequest) (now : ℕ) (db : Database) where
  pub answer_duplicate-DatabaseStep :
      (r : SettlementRecord) → DatabaseStep db (answer_duplicate r now db).1
  answer_duplicate-DatabaseStep r =
      same-DatabaseStep _ _ db (λ t. ((refl, refl, refl), (refl, refl, refl, refl)))

  -- No row has the payment or the key, and a row is added; or a row is found, and it is counted.
  pub claim_cases :
      (start : Bool)
      → ((find (has_payment q) db.settlement_records ≡ none)
          × (find (has_key (requested_key q)) db.settlement_records ≡ none)
          × (claim_and_start_settle_attempt sha256_hexdigest start q now db
              ≡ answer_claimed sha256_hexdigest start q now db))
        ⊎ ((r : SettlementRecord) × ((find (has_payment q) db.settlement_records ≡ some r)
              ⊎ (find (has_key (requested_key q)) db.settlement_records ≡ some r))
            × (claim_and_start_settle_attempt sha256_hexdigest start q now db
                ≡ answer_duplicate r now db))
  unfolding claim_and_start_settle_attempt
  claim_cases start = elim (Option-cases (find (has_payment q) db.settlement_records)) [
    | inl unpaid ↦ elim (Option-cases (find (has_key (requested_key q)) db.settlement_records)) [
      | inl unkeyed ↦ inl (unpaid, unkeyed, rw unpaid (rw unkeyed))
      | inr (r, e) ↦ inr (r, inr e, rw unpaid (rw e))
    ]
    | inr (r, e) ↦ inr (r, inl e, rw e)
  ]

pub start-DatabaseStep :
    (r : SettlementRecord) (trace_id : String) (now : ℕ) (db : Database)
    → DatabaseStep db (start_settle_attempt r trace_id now db).1
unfolding start_settle_attempt
start-DatabaseStep r trace_id now db = elim (Option-cases r.record_id) [
  | inl e ↦ rw (e, start_settle_attempt) (DatabaseStep-refl db)
  | inr (id, e) ↦ rw (e, start_settle_attempt) (DatabaseStep-refl db)
]

pub finish-DatabaseStep :
    (id : ℕ) (status : SettlementAttemptStatus) (transaction reason : Option String) (now : ℕ)
    (db : Database)
    → DatabaseStep db (finish_settle_attempt id status transaction reason now db)
unfolding finish_settle_attempt
finish-DatabaseStep id status transaction reason now db = DatabaseStep-refl db

-- The move that a transition makes is in the diagram, from each status that it expects.
abbrev pub IsAllowed : List SettlementStatus → SettlementStatus → Type 0
IsAllowed expected status =
    (s : SettlementStatus) → is_in s expected ≡ true → can_move s status ≡ true

-- Closing attempts leaves the records alone.
pub finish_started-DatabaseStep :
    (db db' : Database) (id : Option ℕ) (status : SettlementStatus) (now : ℕ)
    (transaction reason : Option String)
    → DatabaseStep db db'
    → DatabaseStep db (finish_started_attempts id status now transaction reason db')
unfolding finish_started_attempts
finish_started-DatabaseStep db db' id status now transaction reason h =
    elim (Option-cases (attempt_status_for status)) [
      | inl e ↦ rw (e, finish_started_attempts) h
      | inr (a, e) ↦ rw (e, finish_started_attempts) h
    ]

module _ (r : SettlementRecord) (expected : List SettlementStatus) (o : Outcome) (now : ℕ)
    (allowed : IsAllowed expected o.status) (db : Database) where
  outcome-RowStep :
      (id : Option ℕ) (t : SettlementRecord)
      → in_status id expected t ≡ true
      → RowStep t (set_outcome o now t)
  outcome-RowStep id t h = ((refl, refl, refl), inl (allowed t.status (ground arith)))

  update_in_status-DatabaseStep : DatabaseStep db (update_in_status r expected o now db).1
  update_in_status-DatabaseStep =
      elim (Bool-cases (count_if (in_status r.record_id expected) db.settlement_records == 0)) [
        | inl e ↦ rw e (DatabaseStep-refl db)
        | inr e ↦ rw e (
            update-RowStep _ (set_outcome o now) (outcome-RowStep r.record_id)
              db.settlement_records)
      ]

  pub update_record-DatabaseStep : DatabaseStep db (update_record r expected o now db).1
  unfolding update_record
  update_record-DatabaseStep = elim (Option-cases r.record_id) [
    | inl e ↦ rw (e, update_record) (DatabaseStep-refl db)
    | inr (id, e) ↦ rw (e, update_record) update_in_status-DatabaseStep
  ]

  pub finalize_from-DatabaseStep :
      (attempt_id : ℕ) (attempt_status : SettlementAttemptStatus)
      → DatabaseStep db (finalize_from r attempt_id attempt_status o now (some expected) db).1
  finalize_from-DatabaseStep attempt_id attempt_status =
      then_finish-DatabaseStep attempt_id attempt_status (update_record r expected o now db)
        update_record-DatabaseStep
    where
      then_finish-DatabaseStep :
          (i : ℕ) (a : SettlementAttemptStatus) (m : Result SettlementRecord × Database)
          → DatabaseStep db m.1
          → DatabaseStep db (then_finish i a o now m).1
      then_finish-DatabaseStep i a (ok t, db') h = h
      then_finish-DatabaseStep i a (err x, db') h = h

  leased-RowStep :
      (id : Option ℕ) (owner : String) (lease_until : ℕ) (t : SettlementRecord)
      → leased id expected owner lease_until now t ≡ true
      → RowStep t (set_outcome o now t)
  leased-RowStep id owner lease_until t h =
      ((refl, refl, refl), inl (allowed t.status (ground arith)))

  update_leased-DatabaseStep :
      (owner : String) (lease_until : ℕ)
      → DatabaseStep db (update_leased r expected o owner lease_until now db).1
  update_leased-DatabaseStep owner lease_until =
      elim (Bool-cases
        (count_if (leased r.record_id expected owner lease_until now) db.settlement_records == 0)) [
          | inl e ↦ rw e (DatabaseStep-refl db)
          | inr e ↦ rw e (
              finish_started-DatabaseStep db _ r.record_id o.status now o.transaction o.error_reason
                (update-RowStep _ (set_outcome o now) (leased-RowStep r.record_id owner lease_until)
                  db.settlement_records))
        ]

  update_under_lease-DatabaseStep :
      (owner : String) (lease : Option ℕ)
      → DatabaseStep db (update_under_lease r expected o owner lease now db).1
  update_under_lease-DatabaseStep owner none = DatabaseStep-refl db
  update_under_lease-DatabaseStep owner (some t) = update_leased-DatabaseStep owner t

  update_owned-DatabaseStep :
      (owner : String) (id : Option ℕ)
      → DatabaseStep db (update_owned r expected o owner id now db).1
  update_owned-DatabaseStep owner none = DatabaseStep-refl db
  update_owned-DatabaseStep owner (some id) = elim (Bool-cases (owner == "")) [
    | inl e ↦ rw e (DatabaseStep-refl db)
    | inr e ↦ rw e (update_under_lease-DatabaseStep owner r.reconciliation_lease_until)
  ]

  pub update_reconciliation_record-DatabaseStep :
      (owner : String) → DatabaseStep db (update_reconciliation_record r expected o owner now db).1
  unfolding update_reconciliation_record
  update_reconciliation_record-DatabaseStep owner = update_owned-DatabaseStep owner r.record_id

pub claim_lease-DatabaseStep :
    (id : ℕ) (owner : String) (lease_until : ℕ) (eligible : List SettlementStatus)
    (stale_before : Option ℕ) (now : ℕ) (db : Database)
    → DatabaseStep db
        (claim_reconciliation_record id owner lease_until eligible stale_before now db).1
unfolding claim_reconciliation_record
claim_lease-DatabaseStep id owner lease_until [] stale_before now db =
    elim (Bool-cases (owner == "")) [
      | inl e ↦ rw e (DatabaseStep-refl db)
      | inr e ↦ rw e (DatabaseStep-refl db)
    ]
claim_lease-DatabaseStep id owner lease_until (status ∷ statuses) stale_before now db =
    elim (Bool-cases (owner == "")) [
      | inl e ↦ rw e (DatabaseStep-refl db)
      | inr e ↦
          rw e (same-DatabaseStep _ _ db (λ t. ((refl, refl, refl), (refl, refl, refl, refl))))
    ]

pub release-DatabaseStep :
    (id : ℕ) (owner : String) (now : ℕ) (db : Database)
    → DatabaseStep db (release_reconciliation_record id owner now db).1
unfolding release_reconciliation_record
release-DatabaseStep id owner now db = elim (Bool-cases (owner == "")) [
  | inl e ↦ rw e (DatabaseStep-refl db)
  | inr e ↦ rw e (same-DatabaseStep _ _ db (λ t. ((refl, refl, refl), (refl, refl, refl, refl))))
]

-- An UPDATE .. RETURNING that raises writes nothing.
pub update_or_raise-DatabaseStep :
    (x : Error) (test : SettlementRecord → Bool) (change : SettlementRecord → SettlementRecord)
    (db : Database)
    → Rowwise RowStep db.settlement_records (update test change db.settlement_records)
    → DatabaseStep db (update_or_raise x test change db).1
update_or_raise-DatabaseStep x test change db h =
    elim (Option-cases (returning test change db.settlement_records)) [
      | inl e ↦ rw (e, update_or_raise) (DatabaseStep-refl db)
      | inr (r, e) ↦ rw (e, update_or_raise) h
    ]
