-- ===== src/Prelude/Sort.antt =====
-- Python's `sorted`: a stable sort by a Boolean order.
use Prim.Native.Nat.{suc, ◌+◌}
use mathlib.Core.Path.{◌≡◌, refl, ap, ◌∙◌}
use mathlib.Core.Bool.{Bool, true, false}
use mathlib.Core.List.{List, [], ◌∷◌}
use mathlib.Core.Logic.{inl, inr}
use native.Mathlib.Omega.{arith}
use treeherder_service.Prelude.Tests.{if◌then◌else◌, Bool-cases}
use treeherder_service.Prelude.Lists.{tally, length}

module _ {ℓ} {A : Type ℓ} (le : A → A → Bool) where
  -- before the first element that must not stand in front of it
  unfoldable pub insert_sorted : A → List A → List A
  insert_sorted x [] = x ∷ []
  insert_sorted x (y ∷ ys) = if le x y then x ∷ y ∷ ys else y ∷ insert_sorted x ys

  unfoldable pub sorted : List A → List A
  unfolding insert_sorted
  sorted [] = []
  sorted (x ∷ xs) = insert_sorted x (sorted xs)

  abbrev pub IsSorted : List A → Type 0
  IsSorted [] = Unit
  IsSorted (x ∷ []) = Unit
  IsSorted (x ∷ y ∷ ys) = (le x y ≡ true) × IsSorted (y ∷ ys)

  tally-insert_sorted :
      (p : A → Bool) (x : A) (ys : List A)
      → tally p (insert_sorted x ys) ≡ (if p x then 1 else 0) + tally p ys
  unfolding insert_sorted
  tally-insert_sorted p x [] = refl
  tally-insert_sorted p x (y ∷ ys) = elim (Bool-cases (le x y)) [
    | inl e ↦ rw e refl
    | inr e ↦ rw e (omega (arith, tally-insert_sorted p x ys))
  ]

  length-insert_sorted : (x : A) (ys : List A) → length (insert_sorted x ys) ≡ suc (length ys)
  unfolding insert_sorted
  length-insert_sorted x [] = refl
  length-insert_sorted x (y ∷ ys) = elim (Bool-cases (le x y)) [
    | inl e ↦ rw e refl
    | inr e ↦ rw e (ap suc (length-insert_sorted x ys))
  ]

  -- Nothing is lost, and nothing is doubled.
  pub tally-sorted : (p : A → Bool) (xs : List A) → tally p (sorted xs) ≡ tally p xs
  unfolding sorted
  tally-sorted p [] = refl
  tally-sorted p (x ∷ xs) =
      tally-insert_sorted p x (sorted xs) ∙ ap (λ n. (if p x then 1 else 0) + n) (tally-sorted p xs)

  pub length-sorted : (xs : List A) → length (sorted xs) ≡ length xs
  unfolding sorted
  length-sorted [] = refl
  length-sorted (x ∷ xs) = length-insert_sorted x (sorted xs) ∙ ap suc (length-sorted xs)

  module _ (total : (x y : A) → le x y ≡ false → le y x ≡ true) where
    insert_sorted-IsSorted : (x : A) (ys : List A) → IsSorted ys → IsSorted (insert_sorted x ys)
    unfolding insert_sorted
    insert_sorted-IsSorted x [] h = tt
    insert_sorted-IsSorted x (y ∷ []) h = elim (Bool-cases (le x y)) [
      | inl e ↦ rw e (e, tt)
      | inr e ↦ rw e (total x y e, tt)
    ]
    insert_sorted-IsSorted x (y ∷ z ∷ ys) h = elim (Bool-cases (le x y)) [
      | inl e ↦ rw e (e, h)
      | inr e ↦ rw e (elim (Bool-cases (le x z)) [
        | inl f ↦ rw f (total x y e, (f, h.1))
        | inr f ↦ rw f (h.0, rw f at (insert_sorted-IsSorted x (z ∷ ys) h.1))
      ])
    ]

    pub sorted-IsSorted : (xs : List A) → IsSorted (sorted xs)
    unfolding sorted
    sorted-IsSorted [] = tt
    sorted-IsSorted (x ∷ xs) = insert_sorted-IsSorted x (sorted xs) (sorted-IsSorted xs)
