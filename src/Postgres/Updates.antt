-- ===== src/Postgres/Updates.antt =====
-- What the UPDATE statements of the tables do (src/hosted_facilitator/hosted/postgres.py): the rows
-- that pass, the row that is returned, and the rows that are not reached.
use x402_hosted_facilitator.Common.{
  ◌<◌, ◌≡◌, refl, sym, inl, inr, Bool, true, false, none, some, List, [], ◌∷◌, arith, nat_eq,
  option_eq, string_eq, count_if, Bool-cases, IsIn, filter,
}
use x402_hosted_facilitator.Settlement.Status.{status_eq}
use x402_hosted_facilitator.Postgres.{update, returning}

-- An UPDATE whose WHERE no row passes changes nothing and returns nothing.
module _ {ℓ} {A : Type ℓ} (test : A → Bool) (change : A → A) where
  pub update-none : (xs : List A) → count_if test xs ≡ 0 → update test change xs ≡ xs
  update-none [] h = refl
  update-none (x ∷ xs) h = ground (arith, update-none xs)

  pub returning-none : (xs : List A) → count_if test xs ≡ 0 → returning test change xs ≡ none
  returning-none [] h = refl
  returning-none (x ∷ xs) h = ground (arith, returning-none xs)

  -- The row that is returned is a row that passed the test, as changed.
  pub returning-passed :
      (xs : List A) (y : A)
      → returning test change xs ≡ some y
      → (x : A) × (test x ≡ true) × (y ≡ change x)
  returning-passed [] y h = absurd (cc)
  returning-passed (x ∷ xs) y h = elim (Bool-cases (test x)) [
    | inl e ↦ (x, e, ground arith)
    | inr e ↦ returning-passed xs y (ground arith)
  ]

  -- Rows that the test does not reach, by a test that a change does not alter.
  pub filter-update :
      (keep : A → Bool)
      → ((x : A) → test x ≡ true → (keep x ≡ false) × (keep (change x) ≡ false))
      → (xs : List A) → filter keep (update test change xs) ≡ filter keep xs
  filter-update keep apart [] = refl
  filter-update keep apart (x ∷ xs) = elim (Bool-cases (test x)) [
    | inl e ↦ let (before, after) = apart x e in rw (e, before, after) (filter-update keep apart xs)
    | inr e ↦ rw (e, filter-update keep apart xs) refl
  ]

module _ {A : Type 0} (test : A → Bool) (change : A → A) where
  -- It stands in the table as it is returned.
  pub returned-IsIn :
      (xs : List A) (y : A) → returning test change xs ≡ some y → IsIn y (update test change xs)
  returned-IsIn [] y h = absurd (cc)
  returned-IsIn (x ∷ xs) y h = elim (Bool-cases (test x)) [
    | inl e ↦ inl (ground arith)
    | inr e ↦ inr (returned-IsIn xs y (ground arith))
  ]

  pub changed-IsIn :
      (xs : List A) (y : A) → IsIn y xs → test y ≡ true → IsIn (change y) (update test change xs)
  changed-IsIn [] y h passed = absurd h
  changed-IsIn (x ∷ xs) y (inl e) passed = inl (rw (sym e, passed) refl)
  changed-IsIn (x ∷ xs) y (inr h) passed = inr (changed-IsIn xs y h passed)

module _ {A : Type 0} where
  pub IsIn-count_if :
      (test : A → Bool) (xs : List A) (y : A) → IsIn y xs → test y ≡ true → 0 < count_if test xs
  IsIn-count_if test [] y h passed = absurd h
  IsIn-count_if test (x ∷ xs) y (inl e) passed = rw (sym e, passed) (omega arith)
  IsIn-count_if test (x ∷ xs) y (inr h) passed = omega (arith, IsIn-count_if test xs y h passed)
