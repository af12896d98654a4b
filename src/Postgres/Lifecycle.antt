-- ===== src/Postgres/Lifecycle.antt =====
-- The life of a record over any interleaving of calls.
use x402_hosted_facilitator.Common.{ℕ, String, inl, inr, Bool, true, false, List, [], ◌∷◌}
use x402_hosted_facilitator.Common.Evolution.{
  Evolves, Evolves-refl, Evolves-append, Rowwise-Evolves,
}
use x402_hosted_facilitator.Settlement.{ClaimRequest}
use x402_hosted_facilitator.Postgres.{Database}
use x402_hosted_facilitator.Postgres.Claim.{claim_and_start_settle_attempt, answer_claimed}
use x402_hosted_facilitator.Postgres.Transition.{
  RowStep, RowStep-refl, Keeps, Keeps-refl, Evolves-step,
}
use x402_hosted_facilitator.Postgres.Steps.{claim_cases, answer_duplicate-DatabaseStep}
use x402_hosted_facilitator.Postgres.Trace.{Call, apply, apply-DatabaseStep}

-- A claim of a settlement, or another call.
pub data Event : Type 0 where
  claim : Bool → ClaimRequest → ℕ → Event
  call : Call → Event

module _ (sha256_hexdigest : String → String) where
  unfoldable pub handle : Event → Database → Database
  handle (claim start q now) db = (claim_and_start_settle_attempt sha256_hexdigest start q now db).1
  handle (call c) db = apply c db

  unfoldable pub run : List Event → Database → Database
  unfolding handle
  run [] db = db
  run (e ∷ es) db = run es (handle e db)

  answer_claimed-Evolves :
      (start : Bool) (q : ClaimRequest) (now : ℕ) (db : Database)
      → Evolves RowStep db.settlement_records
          (answer_claimed sha256_hexdigest start q now db).1.settlement_records
  answer_claimed-Evolves true q now db = Evolves-append RowStep RowStep-refl db.settlement_records _
  answer_claimed-Evolves false q now db =
      Evolves-append RowStep RowStep-refl db.settlement_records _

  handle-Evolves :
      (e : Event) (db : Database)
      → Evolves RowStep db.settlement_records (handle e db).settlement_records
  unfolding handle
  handle-Evolves (claim start q now) db = elim (claim_cases sha256_hexdigest q now db start) [
    | inl (unpaid, unkeyed, e) ↦ rw (e, handle) (answer_claimed-Evolves start q now db)
    | inr (r, found, e) ↦
        rw (e, handle)
          (Rowwise-Evolves RowStep _ _ (answer_duplicate-DatabaseStep sha256_hexdigest q now db r))
  ]
  handle-Evolves (call c) db = Rowwise-Evolves RowStep _ _ (apply-DatabaseStep c db)

  -- Over any interleaving of claims and other calls, with whatever arguments, no row is removed
  -- and each keeps its id and the keys it is found by; its status moves only along the diagram
  -- `can_move`; and once it is final (settled, settle_failed, manual_review) its status,
  -- transaction, payer and error reason stay as they are.
  pub run-Keeps :
      (es : List Event) (db : Database)
      → Evolves Keeps db.settlement_records (run es db).settlement_records
  unfolding run
  run-Keeps [] db = Evolves-refl Keeps Keeps-refl db.settlement_records
  run-Keeps (e ∷ es) db = Evolves-step _ _ _ (handle-Evolves e db) (run-Keeps es (handle e db))
