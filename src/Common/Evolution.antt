-- ===== src/Common/Evolution.antt =====
-- Tables that grow at the end and whose rows change in place.
use mathlib.Core.List.{List, [], ◌∷◌, ◌++◌}

module _ {ℓ} {A : Type ℓ} (R : A → A → Type 0) where
  -- Row by row the old table is related to the new one, which may have more rows.
  abbrev pub Evolves : List A → List A → Type 0
  Evolves [] ys = Unit
  Evolves (x ∷ xs) [] = ⊥
  Evolves (x ∷ xs) (y ∷ ys) = R x y × Evolves xs ys

  -- The same, with no new row.
  abbrev pub Rowwise : List A → List A → Type 0
  Rowwise [] [] = Unit
  Rowwise [] (y ∷ ys) = ⊥
  Rowwise (x ∷ xs) [] = ⊥
  Rowwise (x ∷ xs) (y ∷ ys) = R x y × Rowwise xs ys

module _ {ℓ} {A : Type ℓ} (R : A → A → Type 0) where
  pub Rowwise-refl : ((x : A) → R x x) → (xs : List A) → Rowwise R xs xs
  Rowwise-refl self [] = tt
  Rowwise-refl self (x ∷ xs) = (self x, Rowwise-refl self xs)

  pub Rowwise-Evolves : (xs ys : List A) → Rowwise R xs ys → Evolves R xs ys
  Rowwise-Evolves [] ys h = tt
  Rowwise-Evolves (x ∷ xs) [] h = h
  Rowwise-Evolves (x ∷ xs) (y ∷ ys) h = (h.0, Rowwise-Evolves xs ys h.1)

  pub Evolves-refl : ((x : A) → R x x) → (xs : List A) → Evolves R xs xs
  Evolves-refl self [] = tt
  Evolves-refl self (x ∷ xs) = (self x, Evolves-refl self xs)

  pub Evolves-append : ((x : A) → R x x) → (xs ys : List A) → Evolves R xs (xs ++ ys)
  Evolves-append self [] ys = tt
  Evolves-append self (x ∷ xs) ys = (self x, Evolves-append self xs ys)
