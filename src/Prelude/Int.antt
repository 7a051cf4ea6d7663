-- ===== src/Prelude/Int.antt =====
-- Integers over the native numbers, as far as durations and measurements need them.
use Prim.Native.Nat.{ℕ, zero, suc, ◌+◌, ◌-◌, ◌≤◌}
use mathlib.Core.Path.{◌≡◌}
use mathlib.Core.Bool.{Bool}
use native.Mathlib.Omega.{arith}
use treeherder_service.Prelude.Tests.{if◌then◌else◌, leb}

-- `negsuc n` is -(n + 1)
pub data ℤ : Type 0 where
  pos : ℕ → ℤ
  negsuc : ℕ → ℤ

abbrev pub neg : ℕ → ℤ
neg zero = pos 0
neg (suc n) = negsuc n

-- what is above zero, and what is below
abbrev pub pos_part : ℤ → ℕ
pos_part (pos n) = n
pos_part (negsuc n) = 0

abbrev pub neg_part : ℤ → ℕ
neg_part (pos n) = 0
neg_part (negsuc n) = suc n

abbrev pub difference : ℕ → ℕ → ℤ
difference a b = if leb b a then pos (a - b) else negsuc (b - a - 1)

infixl 65 ◌+ℤ◌
infix 50 ◌≤ℤ◌
unfoldable pub ◌+ℤ◌ : ℤ → ℤ → ℤ
x +ℤ y = difference (pos_part x + pos_part y) (neg_part x + neg_part y)

abbrev pub ◌≤ℤ◌ : ℤ → ℤ → Type 0
x ≤ℤ y = pos_part x + neg_part y ≤ pos_part y + neg_part x

abbrev pub leb_ℤ : ℤ → ℤ → Bool
leb_ℤ x y = leb (pos_part x + neg_part y) (pos_part y + neg_part x)

pub +ℤ_parts :
    (x y : ℤ)
    → pos_part (x +ℤ y) + neg_part x + neg_part y ≡ neg_part (x +ℤ y) + pos_part x + pos_part y
unfolding ◌+ℤ◌
+ℤ_parts x y = ground arith

pub eq_of_parts : (x y : ℤ) → pos_part x + neg_part y ≡ pos_part y + neg_part x → x ≡ y
eq_of_parts x y h = ground arith

-- the lesser and the greater of two, the first where they are equal
abbrev pub min_ℤ : ℤ → ℤ → ℤ
min_ℤ x y = if leb_ℤ x y then x else y

abbrev pub max_ℤ : ℤ → ℤ → ℤ
max_ℤ x y = if leb_ℤ y x then x else y

pub min_ℤ-le : (x y : ℤ) → (min_ℤ x y ≤ℤ x) × (min_ℤ x y ≤ℤ y)
min_ℤ-le x y = (ground arith, ground arith)

pub max_ℤ-ge : (x y : ℤ) → (x ≤ℤ max_ℤ x y) × (y ≤ℤ max_ℤ x y)
max_ℤ-ge x y = (ground arith, ground arith)
