-- ===== src/Engine/Submission.antt =====
-- Which requests reach the provider, over any interleaving of the two halves of `settle` with each
-- other and with the calls of reconcilers and operators.
use x402_hosted_facilitator.Common.{
  ℕ, ◌+◌, ◌≤◌, String, ◌≡◌, refl, sym, ap, ◌∙◌, inl, inr, Bool, true, false, ◌&&◌, Option, none,
  some, List, [], ◌∷◌, arith, max, Result, ok, err, ◌==◌, bit, Bool-cases,
}
use mathlib.Core.Path.{subst}
use x402_hosted_facilitator.Settlement.{SettlementRecord, ClaimRequest}
use x402_hosted_facilitator.Postgres.{Database, empty}
use x402_hosted_facilitator.Postgres.Payment.{
  PaymentKey, payment_eq, payment_of, payment_of_request,
}
use x402_hosted_facilitator.Postgres.Claim.{Claimed, answer_claimed, answer_duplicate}
use x402_hosted_facilitator.Postgres.Steps.{claim_cases}
use x402_hosted_facilitator.Postgres.Lifecycle.{claim, call, handle}
use x402_hosted_facilitator.Postgres.Trace.{Call, apply}
use x402_hosted_facilitator.Postgres.Once.{
  rows_of, grants, is_claimed, duplicate_not_claimed, rows_of-handle, rows_of-call, grants-unpaid,
}
use x402_hosted_facilitator.RateLimit.{RateLimitDecision}
use x402_hosted_facilitator.Engine.{
  Begun, after_claim, claim_or_answer, admit, cached_existing_settlement, refuse_limited, look_up,
  answer_or_admit, begin_prepared, begin_settle, complete_settle, prepare, then_answer, Routing,
  FacilitatorEnvelope, RequestContext,
}
use x402_hosted_facilitator.Engine.Answers.{SettleOutcome, cached_settlement, duplicate-cached}

-- Whether the first half of `settle` handed a record of the payment to the provider.
abbrev pub is_submission : PaymentKey → Result Begun → Bool
is_submission p (ok (Begun.submitting r attempt_id)) = payment_of r == p
is_submission p _ = false

module _ (sha256_hexdigest : String → String) where
  -- What follows a claim that answered as `m` does: the provider is called if and only if the claim
  -- was granted, and the store is left as the claim left it.
  abbrev Agrees : PaymentKey → ClaimRequest → ℕ → Result Claimed × Database → Type 0
  Agrees p q now m =
      (is_submission p (after_claim q now m).0
        ≡ (is_claimed sha256_hexdigest m.0 && payment_of_request q == p))
      × ((after_claim q now m).1 ≡ m.1)

  claimed-Agrees :
      (p : PaymentKey) (q : ClaimRequest) (now : ℕ) (db : Database)
      → Agrees p q now (answer_claimed sha256_hexdigest true q now db)
  unfolding cached_settlement
  claimed-Agrees p q now db = (refl, refl)

  duplicate-Agrees :
      (p : PaymentKey) (q : ClaimRequest) (now : ℕ) (db : Database) (r : SettlementRecord)
      → Agrees p q now (answer_duplicate r now db)
  duplicate-Agrees p q now db r =
      let not_granted = duplicate_not_claimed sha256_hexdigest r now db in
      (
        rw (duplicate-cached r r.status) (rw not_granted refl),
        rw (duplicate-cached r r.status) refl,
      )

  claim_or_answer-grants :
      (p : PaymentKey) (q : ClaimRequest) (now : ℕ) (db : Database)
      → (is_submission p (claim_or_answer sha256_hexdigest q now db).0
          ≡ grants sha256_hexdigest p (claim true q now) db)
        × ((claim_or_answer sha256_hexdigest q now db).1
            ≡ handle sha256_hexdigest (claim true q now) db)
  unfolding claim_or_answer handle
  claim_or_answer-grants p q now db = elim (claim_cases sha256_hexdigest q now db true) [
    | inl (unpaid, unkeyed, e) ↦ subst (Agrees p q now) (sym e) (claimed-Agrees p q now db)
    | inr (r, found, e) ↦ subst (Agrees p q now) (sym e) (duplicate-Agrees p q now db r)
  ]

  -- An answer counts its submission as a row, and only where the payment had none.
  abbrev Counted : PaymentKey → Database → Result Begun × Database → Type 0
  Counted p db m =
      (rows_of p db + (bit (is_submission p m.0)) ≤ rows_of p m.1)
      × ((bit (is_submission p m.0)) + rows_of p db ≤ max 1 (rows_of p db))

  claim_or_answer-Counted :
      (p : PaymentKey) (q : ClaimRequest) (now : ℕ) (db : Database)
      → Counted p db (claim_or_answer sha256_hexdigest q now db)
  claim_or_answer-Counted p q now db =
      let (same, moved) = claim_or_answer-grants p q now db in
      omega (
        arith,
        ap bit same,
        ap (rows_of p) moved,
        rows_of-handle sha256_hexdigest p (claim true q now) db,
        grants-unpaid sha256_hexdigest p (claim true q now) db,
      )

  limited-Counted :
      (p : PaymentKey) (db : Database) (cached : Option SettleOutcome)
      → Counted p db (refuse_limited sha256_hexdigest cached db)
  limited-Counted p db none = omega arith
  limited-Counted p db (some o) = omega arith

  admit-Counted :
      (p : PaymentKey) (q : ClaimRequest) (decision : Option RateLimitDecision) (now : ℕ)
      (db : Database)
      → Counted p db (admit sha256_hexdigest q decision now db)
  unfolding admit
  admit-Counted p q none now db = claim_or_answer-Counted p q now db
  admit-Counted p q (some decision) now db = elim (Bool-cases decision.allowed) [
    | inl e ↦ rw (e, admit) (claim_or_answer-Counted p q now db)
    | inr e ↦ rw (e, admit) (limited-Counted p db (cached_existing_settlement q db))
  ]

  answer_or_admit-Counted :
      (p : PaymentKey) (q : ClaimRequest) (decision : Option RateLimitDecision) (now : ℕ)
      (cached : Option SettleOutcome) (db : Database)
      → Counted p db (answer_or_admit sha256_hexdigest q decision now cached db)
  answer_or_admit-Counted p q decision now none db = admit-Counted p q decision now db
  answer_or_admit-Counted p q decision now (some o) db = omega arith

  begin_prepared-Counted :
      (p : PaymentKey) (decision : Option RateLimitDecision) (now : ℕ)
      (prepared : Result ClaimRequest) (db : Database)
      → Counted p db (begin_prepared sha256_hexdigest decision now prepared db)
  unfolding begin_prepared
  begin_prepared-Counted p decision now (err e) db = omega arith
  begin_prepared-Counted p decision now (ok q) db =
      answer_or_admit-Counted p q decision now (look_up sha256_hexdigest q decision db) db

-- The steps of the engines, and any other call of the store.
pub data Step : Type 0 where
  begin : FacilitatorEnvelope → RequestContext → Option RateLimitDecision → ℕ → Step
  complete :
      FacilitatorEnvelope
      → RequestContext
      → String
      → SettlementRecord
      → ℕ
      → Result SettleOutcome
      → ℕ
      → Step
  other : Call → Step

then_answer-store :
    (o : SettleOutcome) (m : Result SettlementRecord × Database) → (then_answer o m).1 ≡ m.1
then_answer-store o (err e, db) = refl
then_answer-store o (ok r, db) = refl

module _ (sha256_hexdigest : String → String) (routing : Routing) where
  unfoldable pub step : Step → Database → Database
  step (begin envelope context decision now) db =
      (begin_settle sha256_hexdigest routing envelope context decision now db).1
  step (complete envelope context provider r attempt_id answer now) db =
      (complete_settle envelope context provider r attempt_id answer now db).1
  step (other c) db = handle sha256_hexdigest (call c) db

  -- Whether the step hands a record of the payment to the provider.
  abbrev pub submits : PaymentKey → Step → Database → Bool
  submits p (begin envelope context decision now) db =
      is_submission p (begin_settle sha256_hexdigest routing envelope context decision now db).0
  submits p _ db = false

  unfoldable pub submissions_of : PaymentKey → List Step → Database → ℕ
  submissions_of p [] db = 0
  submissions_of p (s ∷ ss) db = (bit (submits p s db)) + submissions_of p ss (step s db)

  complete-rows_of :
      (p : PaymentKey) (envelope : FacilitatorEnvelope) (context : RequestContext)
      (provider : String) (r : SettlementRecord) (attempt_id : ℕ) (answer : Result SettleOutcome)
      (now : ℕ) (db : Database)
      → rows_of p (complete_settle envelope context provider r attempt_id answer now db).1
        ≡ rows_of p db
  unfolding complete_settle handle apply
  complete-rows_of p envelope context provider r attempt_id (err e) now db =
      ap (rows_of p) (then_answer-store _ _)
      ∙ rows_of-call sha256_hexdigest p (Call.finalize r attempt_id _ _ now) db
  complete-rows_of p envelope context provider r attempt_id (ok o) now db =
      ap (rows_of p) (then_answer-store _ _)
      ∙ rows_of-call sha256_hexdigest p (Call.finalize r attempt_id _ _ now) db

  step-Counted :
      (p : PaymentKey) (s : Step) (db : Database)
      → (rows_of p db + (bit (submits p s db)) ≤ rows_of p (step s db))
        × ((bit (submits p s db)) + rows_of p db ≤ max 1 (rows_of p db))
  unfolding step begin_settle
  step-Counted p (begin envelope context decision now) db =
      begin_prepared-Counted sha256_hexdigest p decision now (prepare routing envelope context) db
  step-Counted p (complete envelope context provider r attempt_id answer now) db =
      omega (arith, complete-rows_of p envelope context provider r attempt_id answer now db)
  step-Counted p (other c) db = omega (arith, rows_of-call sha256_hexdigest p c db)

  submissions_of-rows_of :
      (p : PaymentKey) (ss : List Step) (db : Database)
      → submissions_of p ss db + rows_of p db ≤ max 1 (rows_of p db)
  unfolding submissions_of
  submissions_of-rows_of p [] db = omega arith
  submissions_of-rows_of p (s ∷ ss) db = omega (
    arith,
    (step-Counted p s db).0,
    (step-Counted p s db).1,
    submissions_of-rows_of p ss (step s db),
  )

  -- Over any interleaving of both halves of `settle` (with any envelopes, provider answers and
  -- limiter decisions) and of the calls of reconcilers and operators on empty tables, one payment
  -- is submitted to its provider at most once.
  pub submitted_once : (p : PaymentKey) (ss : List Step) → submissions_of p ss empty ≤ 1
  submitted_once p ss = omega (arith, submissions_of-rows_of p ss empty)
