-- ===== src/Common/Sort.antt =====
-- Python's `sorted`, and `ORDER BY`: a stable sort by insertion.
use Prim.Native.Nat.{ℕ, ◌+◌, min}
use mathlib.Core.Path.{◌≡◌, refl, sym, ap, ◌∙◌}
use mathlib.Core.Logic.{inl, inr}
use mathlib.Core.Bool.{Bool, true, false}
use mathlib.Core.List.{List, [], ◌∷◌, ◌++◌}
use native.Mathlib.Omega.{arith}
use x402_hosted_facilitator.Common.Tests.{if◌then◌else◌, Bool-cases, bit}
use x402_hosted_facilitator.Common.Lists.{All, count_if, length, take, drop, take-drop, length-take}

module _ {ℓ} {A : Type ℓ} (le : A → A → Bool) where
  pub insert : A → List A → List A
  insert x [] = x ∷ []
  insert x (y ∷ ys) = if le x y then x ∷ y ∷ ys else y ∷ insert x ys

  unfoldable pub sort : List A → List A
  unfolding insert
  sort [] = []
  sort (x ∷ xs) = insert x (sort xs)

  -- Each element may stand before every later one.
  abbrev pub Sorted : List A → Type 0
  Sorted [] = Unit
  Sorted (x ∷ xs) = All (λ y. le x y ≡ true) xs × Sorted xs

  count_if-insert :
      (p : A → Bool) (x : A) (xs : List A) → count_if p (insert x xs) ≡ (bit (p x)) + count_if p xs
  unfolding insert
  count_if-insert p x [] = refl
  count_if-insert p x (y ∷ ys) = elim (Bool-cases (le x y)) [
    | inl e ↦ rw e refl
    | inr e ↦ rw e (omega (arith, count_if-insert p x ys))
  ]

  pub count_if-sort : (p : A → Bool) (xs : List A) → count_if p (sort xs) ≡ count_if p xs
  unfolding sort
  count_if-sort p [] = refl
  count_if-sort p (x ∷ xs) = omega (arith, count_if-insert p x (sort xs), count_if-sort p xs)

  module _ (total : (x y : A) → le x y ≡ false → le y x ≡ true)
      (trans : (x y z : A) → le x y ≡ true → le y z ≡ true → le x z ≡ true) where
    All-trans :
        (x y : A) (ys : List A)
        → le x y ≡ true
        → All (λ z. le y z ≡ true) ys
        → All (λ z. le x z ≡ true) ys
    All-trans x y [] h hs = tt
    All-trans x y (z ∷ zs) h hs = (trans x y z h hs.0, All-trans x y zs h hs.1)

    All-insert : (P : A → Type 0) (x : A) (xs : List A) → P x → All P xs → All P (insert x xs)
    unfolding insert
    All-insert P x [] h hs = (h, tt)
    All-insert P x (y ∷ ys) h hs = elim (Bool-cases (le x y)) [
      | inl e ↦ rw e (h, hs)
      | inr e ↦ rw e (hs.0, All-insert P x ys h hs.1)
    ]

    insert-Sorted : (x : A) (xs : List A) → Sorted xs → Sorted (insert x xs)
    unfolding insert
    insert-Sorted x [] h = (tt, tt)
    insert-Sorted x (y ∷ ys) h = elim (Bool-cases (le x y)) [
      | inl e ↦ rw e ((e, All-trans x y ys e h.0), h)
      | inr e ↦
          rw e (All-insert (λ z. le y z ≡ true) x ys (total x y e) h.0, insert-Sorted x ys h.1)
    ]

    pub sort-Sorted : (xs : List A) → Sorted (sort xs)
    unfolding sort
    sort-Sorted [] = tt
    sort-Sorted (x ∷ xs) = insert-Sorted x (sort xs) (sort-Sorted xs)

count_if-all {ℓ} : {A : Type ℓ} (xs : List A) → count_if (λ (x : A). true) xs ≡ length xs
count_if-all [] = refl
count_if-all (x ∷ xs) = omega (arith, count_if-all xs)

module _ {ℓ} {A : Type ℓ} (le : A → A → Bool) where
  -- `shown` is the first `n` of the elements in order: with the rest it is the elements, each as
  -- often, and in order.
  abbrev pub IsFirst : ℕ → List A → List A → Type ℓ
  IsFirst n elements shown =
      (rest : List A) × Sorted le (shown ++ rest)
      × ((p : A → Bool) → count_if p (shown ++ rest) ≡ count_if p elements)
      × (length shown ≡ min n (length elements))

  pub take-sort-IsFirst :
      (total : (x y : A) → le x y ≡ false → le y x ≡ true)
      (trans : (x y z : A) → le x y ≡ true → le y z ≡ true → le x z ≡ true) (n : ℕ) (xs : List A)
      → IsFirst n xs (take n (sort le xs))
  take-sort-IsFirst total trans n xs =
      let whole = take-drop n (sort le xs) in
      let same_length : length (sort le xs) ≡ length xs =
        sym (count_if-all (sort le xs)) ∙ count_if-sort le (λ x. true) xs ∙ count_if-all xs in
      (
        drop n (sort le xs),
        rw whole (sort-Sorted le total trans xs),
        (λ p. rw whole (count_if-sort le p xs)),
        length-take n (sort le xs) ∙ ap (min n) same_length,
      )
