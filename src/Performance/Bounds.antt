-- ===== src/Performance/Bounds.antt =====
-- What the statistics of a series say of the replicates.
use treeherder_service.Prelude.{ℕ, ◌%◌, ◌≡◌, List, length, All, ℤ, pos, negsuc, ◌≤ℤ◌}
use treeherder_service.Json.{Result, ok, err, value_error}
use treeherder_service.Performance.{sum, round_div, SeriesData}

abbrev Within : ℤ → ℤ → List ℤ → Type 0
Within lo hi = All (λ x. (lo ≤ℤ x) × (x ≤ℤ hi))

-- the statistics, with their bounds; the median of an even number of replicates
abbrev pub Summary : List ℤ → SeriesData → Type 0
Summary r d =
    (d.min ≤ℤ d.mean)
    × (d.mean ≤ℤ d.max)
    × (d.min ≤ℤ d.median)
    × (d.median ≤ℤ d.max)
    × (d.total_replicates ≡ length r)
    × (d.mean ≡ round_div (sum r) (length r))
    × (length r % 2 ≡ 0 → d.median ≡ d.mean)

-- the deviation is the root of the mean, which is not below zero
abbrev pub Summarized : (ℕ → ℕ → ℕ) → List ℤ → ℤ → Result SeriesData → Type 0
Summarized root r (negsuc n) result = result ≡ err value_error
Summarized root r (pos n) result =
    (d : SeriesData) × (result ≡ ok d) × Summary r d × (d.std ≡ root n (length r))
