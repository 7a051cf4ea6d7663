-- ===== src/Prelude/Assoc.antt =====
-- Python's `dict` as an association list with an entry for each key, over keys with a Boolean
-- test for equality.
use mathlib.Core.Path.{◌≡◌, refl}
use mathlib.Core.Bool.{Bool, true, false, not, ◌&&◌, ◌||◌}
use mathlib.Core.List.{List, [], ◌∷◌, ◌++◌}
use mathlib.Core.Logic.{◌↔◌}
use mathlib.Core.Option.{Option, none, some}
use Prim.Native.Nat.{ℕ}
use Prim.Native.String.{String}
use native.Mathlib.Omega.{arith}
use text.Mathlib.Text.{◌==◌ as str_eq}
use text.Mathlib.TextEquality.{eq_iff}
use treeherder_service.Prelude.Tests.{if◌then◌else◌, ◌==◌, ==_iff}

pub record Eq {ℓ} (K : Type ℓ) : Type ℓ where
  pub beq : K → K → Bool
  pub beq_iff : (a b : K) → (beq a b ≡ true) ↔ (a ≡ b)

instance abbrev pub nat_eq : Eq ℕ
nat_eq = record { beq = λ a b. a == b; beq_iff = ==_iff }

instance abbrev pub string_eq : Eq String
string_eq = record { beq = str_eq; beq_iff = eq_iff }

module _ {ℓ} {K : Type ℓ} ⦃e : Eq K⦄ where
  -- `k in xs`
  abbrev pub contains : K → List K → Bool
  contains k [] = false
  contains k (x ∷ xs) = e.beq x k || contains k xs

module _ {ℓ κ} {K : Type ℓ} {V : Type κ} ⦃e : Eq K⦄ where
  -- `d.get(k)`
  unfoldable pub lookup : K → List (K × V) → Option V
  lookup k [] = none
  lookup k ((j, v) ∷ d) = if e.beq j k then some v else lookup k d

  -- `d[k] = v`
  unfoldable pub insert : K → V → List (K × V) → List (K × V)
  insert k v [] = (k, v) ∷ []
  insert k v ((j, w) ∷ d) = if e.beq j k then (k, v) ∷ d else (j, w) ∷ insert k v d

  pub lookup-insert :
      (k j : K) (v : V) (d : List (K × V))
      → lookup j (insert k v d) ≡ (if e.beq k j then some v else lookup j d)
  unfolding lookup insert
  lookup-insert k j v [] = refl
  lookup-insert k j v ((i, w) ∷ d) =
      ground (arith, e.beq_iff k j, e.beq_iff i k, e.beq_iff i j, lookup-insert k j v d)

-- no text stands twice
unfoldable pub distinct : List String → Bool
distinct [] = true
distinct (x ∷ xs) = not (contains x xs) && distinct xs

pub contains-snoc :
    (x y : String) (xs : List String) → contains x (xs ++ y ∷ []) ≡ (contains x xs || str_eq y x)
contains-snoc x y [] = ground (arith, eq_iff y x)
contains-snoc x y (z ∷ xs) = ground (arith, contains-snoc x y xs)

pub distinct-snoc :
    (y : String) (xs : List String)
    → contains y xs ≡ false
    → distinct xs ≡ true
    → distinct (xs ++ y ∷ []) ≡ true
unfolding distinct
distinct-snoc y [] h u = refl
distinct-snoc y (x ∷ xs) h u =
    ground (arith, distinct-snoc y xs, contains-snoc x y xs, eq_iff x y, eq_iff y x)
