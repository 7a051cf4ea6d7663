-- ===== src/Performance/Medians.antt =====
-- The median of the waiting times, `get_median_from_sorted_list` of
-- treeherder/model/derived/jobs.py.
use treeherder_service.Prelude.{
  ℕ, zero, suc, ◌+◌, ◌-◌, ◌/◌, ◌%◌, ◌≤◌, ◌<◌, ◌≡◌, refl, List, [], ◌∷◌, arith, ◌==◌, length, All,
  Bool-cases, inl, inr, not,
}
use treeherder_service.Json.{ok}
use treeherder_service.Performance.{index, get_median_from_sorted_list}

abbrev pub Within : ℕ → ℕ → List ℕ → Type 0
Within lo hi = All (λ x. (lo ≤ x) × (x ≤ hi))

index_lem :
    (lo hi : ℕ) (r : List ℕ) (i : ℕ)
    → i < length r
    → Within lo hi r
    → (v : ℕ) × (index r i ≡ ok v) × (lo ≤ v) × (v ≤ hi)
index_lem lo hi [] i h w = elim h [ ]
index_lem lo hi (x ∷ xs) zero h w = (x, refl, w.0.0, w.0.1)
index_lem lo hi (x ∷ xs) (suc i) h w = index_lem lo hi xs i (omega arith) w.1

-- Of a list that is not empty the median lies between all bounds of the list, and of no samples
-- it is 0: the median of the waiting times never raises.
pub get_median_from_sorted_list_bounds :
    (lo hi : ℕ) (r : List ℕ)
    → Within lo hi r
    → (get_median_from_sorted_list [] ≡ ok 0)
      × (0 < length r → (v : ℕ) × (get_median_from_sorted_list r ≡ ok v) × (lo ≤ v) × (v ≤ hi))
unfolding get_median_from_sorted_list
get_median_from_sorted_list_bounds lo hi [] w = (refl, λ p. elim p [ ])
get_median_from_sorted_list_bounds lo hi (x ∷ []) w = (refl, λ p. (x, refl, w.0.0, w.0.1))
get_median_from_sorted_list_bounds lo hi (x ∷ y ∷ r) w = (
  refl,
  λ p.
      let l = x ∷ y ∷ r in
      elim (Bool-cases (not (length l % 2 == 0))) [
        | inl odd ↦ rw odd (index_lem lo hi l (length l / 2) (omega arith) w)
        | inr even ↦
            let (a, ea, loa, ahi) = index_lem lo hi l (length l / 2) (omega arith) w in
            let (b, eb, lob, bhi) = index_lem lo hi l (length l / 2 - 1) (omega arith) w in
            ((a + b) / 2, rw (even, ea, eb) refl, omega arith, omega arith)
      ],
)
