-- ===== src/Postgres/Once.antt =====
-- A payment is granted to one caller at most, over any interleaving of calls.
use x402_hosted_facilitator.Common.{
  ℕ, ◌+◌, ◌≤◌, String, ◌≡◌, refl, ap, inl, inr, Bool, true, false, ◌&&◌, none, List, [], ◌∷◌, arith,
  max, Result, ok, ◌==◌, bit, find, count_if, count_if-append, Bool-cases,
}
use x402_hosted_facilitator.Common.Evolution.{Rowwise}
use x402_hosted_facilitator.Settlement.{SettlementRecord, ClaimRequest}
use x402_hosted_facilitator.Settlement.Status.{SettlementClaim, claim_for_status}
use x402_hosted_facilitator.Settlement.Identity.{ReplayKey}
use x402_hosted_facilitator.Postgres.{Database, empty}
use x402_hosted_facilitator.Postgres.Payment.{
  PaymentKey, payment_eq, payment_of, payment_of_request, coalesce,
}
use x402_hosted_facilitator.Postgres.Claim.{
  Claimed, has_payment, claim_and_start_settle_attempt, answer_claimed, answer_duplicate,
}
use x402_hosted_facilitator.Postgres.Transition.{RowStep}
use x402_hosted_facilitator.Postgres.Steps.{claim_cases, answer_duplicate-DatabaseStep}
use x402_hosted_facilitator.Postgres.Trace.{Call, apply-DatabaseStep}
use x402_hosted_facilitator.Postgres.Lifecycle.{Event, claim, call, handle, run}

-- How many rows settle the payment.
abbrev pub rows_of : PaymentKey → Database → ℕ
rows_of p db = count_if (λ r. p == payment_of r) db.settlement_records

abbrev pub payment_of_key : ReplayKey → PaymentKey
payment_of_key k = record {
  seller_account_id = k.seller_account_id;
  provider = k.provider;
  scheme = coalesce k.scheme;
  network = coalesce k.network;
  fingerprint = k.fingerprint;
}

Rowwise-count :
    (p : PaymentKey) (xs ys : List SettlementRecord)
    → Rowwise RowStep xs ys
    → count_if (λ r. p == payment_of r) ys ≡ count_if (λ r. p == payment_of r) xs
Rowwise-count p [] [] h = refl
Rowwise-count p [] (y ∷ ys) h = absurd h
Rowwise-count p (x ∷ xs) [] h = absurd h
Rowwise-count p (x ∷ xs) (y ∷ ys) h =
    let same : payment_of y ≡ payment_of x = ap payment_of_key h.0.0.1 in
    ground (arith, Rowwise-count p xs ys h.1, ap (λ (k : PaymentKey). p == k) same)

unpaid-count :
    (q : ClaimRequest) (xs : List SettlementRecord)
    → find (has_payment q) xs ≡ none
    → count_if (λ r. payment_of_request q == payment_of r) xs ≡ 0
unpaid-count q [] h = refl
unpaid-count q (x ∷ xs) h = elim (Bool-cases (has_payment q x)) [
  | inl e ↦ absurd (cc (rw e at h))
  | inr e ↦ rw e (omega (arith, unpaid-count q xs (rw e at h)))
]

module _ (sha256_hexdigest : String → String) where
  abbrev pub is_claimed : Result Claimed → Bool
  is_claimed (ok (r, SettlementClaim.claimed, attempt)) = true
  is_claimed _ = false

  -- Whether the event grants the settlement of payment `p`.
  abbrev pub grants : PaymentKey → Event → Database → Bool
  grants p (claim start q now) db =
      is_claimed (claim_and_start_settle_attempt sha256_hexdigest start q now db).0
      && payment_of_request q == p
  grants p (call c) db = false

  unfoldable pub grants_of : PaymentKey → List Event → Database → ℕ
  grants_of p [] db = 0
  grants_of p (e ∷ es) db = (bit (grants p e db)) + grants_of p es (handle sha256_hexdigest e db)

  pub duplicate_not_claimed :
      (r : SettlementRecord) (now : ℕ) (db : Database)
      → is_claimed (answer_duplicate r now db).0 ≡ false
  unfolding claim_for_status
  duplicate_not_claimed r now db = ground arith

  rows_of-answer_claimed :
      (p : PaymentKey) (start : Bool) (q : ClaimRequest) (now : ℕ) (db : Database)
      → rows_of p (answer_claimed sha256_hexdigest start q now db).1
        ≡ rows_of p db + (bit (p == payment_of_request q))
  rows_of-answer_claimed p true q now db = grind (arith, count_if-append)
  rows_of-answer_claimed p false q now db = grind (arith, count_if-append)

  granted-count :
      (p : PaymentKey) (start : Bool) (q : ClaimRequest) (now : ℕ) (db : Database)
      → rows_of p db + (bit (p == payment_of_request q))
        ≡ rows_of p db
          + (bit (
              is_claimed (answer_claimed sha256_hexdigest start q now db).0
              && payment_of_request q == p))
  granted-count p true q now db = ground (
    arith,
    payment_eq.beq_iff p (payment_of_request q),
    payment_eq.beq_iff (payment_of_request q) p,
  )
  granted-count p false q now db = ground (
    arith,
    payment_eq.beq_iff p (payment_of_request q),
    payment_eq.beq_iff (payment_of_request q) p,
  )

  -- The counts of an event that answers as `m` does.
  module _ (p : PaymentKey) (start : Bool) (q : ClaimRequest) (now : ℕ) (db : Database)
      (m : Result Claimed × Database)
      (e : claim_and_start_settle_attempt sha256_hexdigest start q now db ≡ m) where
    rows_of-answer : rows_of p (handle sha256_hexdigest (claim start q now) db) ≡ rows_of p m.1
    unfolding handle
    rows_of-answer = ap (λ (n : Result Claimed × Database). rows_of p n.1) e

    grants-answer :
        (bit (grants p (claim start q now) db))
        ≡ (bit (is_claimed m.0 && payment_of_request q == p))
    grants-answer =
        ap (λ (n : Result Claimed × Database). bit (is_claimed n.0 && payment_of_request q == p)) e

  pub rows_of-call :
      (p : PaymentKey) (c : Call) (db : Database)
      → rows_of p (handle sha256_hexdigest (call c) db) ≡ rows_of p db
  unfolding handle
  rows_of-call p c db = Rowwise-count p db.settlement_records _ (apply-DatabaseStep c db)

  -- An event adds a row for the payment exactly if it grants it.
  pub rows_of-handle :
      (p : PaymentKey) (e : Event) (db : Database)
      → rows_of p (handle sha256_hexdigest e db) ≡ rows_of p db + (bit (grants p e db))
  rows_of-handle p (claim start q now) db = elim (claim_cases sha256_hexdigest q now db start) [
    | inl (unpaid, unkeyed, e) ↦ omega (
      arith,
      rows_of-answer p start q now db _ e,
      grants-answer p start q now db _ e,
      rows_of-answer_claimed p start q now db,
      granted-count p start q now db,
    )
    | inr (r, found, e) ↦ omega (
      arith,
      rows_of-answer p start q now db _ e,
      grants-answer p start q now db _ e,
      Rowwise-count p db.settlement_records _
          (answer_duplicate-DatabaseStep sha256_hexdigest q now db r),
      ap (λ (b : Bool). bit (b && payment_of_request q == p)) (duplicate_not_claimed r now db),
    )
  ]
  rows_of-handle p (call c) db = omega (arith, rows_of-call p c db)

  -- What was paid before is not granted.
  pub grants-unpaid :
      (p : PaymentKey) (e : Event) (db : Database)
      → (bit (grants p e db)) + rows_of p db ≤ max 1 (rows_of p db)
  grants-unpaid p (claim start q now) db = elim (claim_cases sha256_hexdigest q now db start) [
    | inl (unpaid, unkeyed, e) ↦ elim (Bool-cases (payment_of_request q == p)) [
      | inl same ↦
          let eq : payment_of_request q ≡ p =
            (payment_eq.beq_iff (payment_of_request q) p).0 same in
          let none_yet : rows_of p db ≡ 0 =
            rw (← eq) (unpaid-count q db.settlement_records unpaid) in
          ground (arith, none_yet)
      | inr other ↦ ground arith
    ]
    | inr (r, found, e) ↦ omega (
      arith,
      grants-answer p start q now db _ e,
      ap (λ (b : Bool). bit (b && payment_of_request q == p)) (duplicate_not_claimed r now db),
    )
  ]
  grants-unpaid p (call c) db = omega arith

  grants_of-rows_of :
      (p : PaymentKey) (es : List Event) (db : Database)
      → rows_of p (run sha256_hexdigest es db) ≡ rows_of p db + grants_of p es db
  unfolding grants_of run
  grants_of-rows_of p [] db = omega arith
  grants_of-rows_of p (e ∷ es) db =
      omega (arith, rows_of-handle p e db, grants_of-rows_of p es (handle sha256_hexdigest e db))

  rows_of-le :
      (p : PaymentKey) (es : List Event) (db : Database)
      → rows_of p db ≤ 1
      → rows_of p (run sha256_hexdigest es db) ≤ 1
  unfolding run
  rows_of-le p [] db h = h
  rows_of-le p (e ∷ es) db h =
      rows_of-le p es (handle sha256_hexdigest e db)
        (omega (arith, rows_of-handle p e db, grants-unpaid p e db))

  -- Over any interleaving of calls on empty tables, the settlement of one payment (seller, provider,
  -- scheme, network, fingerprint) is granted as often as it has rows, and that is at most once,
  -- whatever the payment profiles.
  pub payment_granted_once :
      (p : PaymentKey) (es : List Event)
      → (grants_of p es empty ≡ rows_of p (run sha256_hexdigest es empty))
        × (grants_of p es empty ≤ 1)
  payment_granted_once p es =
      omega (arith, grants_of-rows_of p es empty, rows_of-le p es empty (omega arith))
