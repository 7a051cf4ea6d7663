-- ===== src/Performance.antt =====
-- The performance series: the statistics of treeherder/etl/perf_data_adapters.py over the
-- replicates of a test, and `store_performance_series` of treeherder/model/derived/jobs.py.
-- A measured value is a count of hundredths, which may be negative: the code rounds all that it stores
-- to two places.
pub mod Bounds
pub mod Medians
pub mod Series
use treeherder_service.Prelude.{
  ℕ, zero, suc, ◌+◌, ◌-◌, ◌*◌, ◌/◌, ◌%◌, ◌≤◌, String, Bool, Option, none, some, List, [], ◌∷◌, ◌++◌,
  ◌==◌, leb, ltb, not, str_eq, if◌then◌else◌, length, get_elem?, keep, sorted, ℤ, pos, negsuc, neg,
  ◌+ℤ◌, leb_ℤ, min_ℤ, max_ℤ,
}
use treeherder_service.Json.{Result, ok, err, PyError, value_error, index_error, ◌>>=◌}

unfoldable pub sum : List ℤ → ℤ
sum [] = pos 0
sum (x ∷ xs) = x +ℤ sum xs

-- `min(r)` and `max(r)`, which raise ValueError at an empty list
abbrev pub least : ℤ → List ℤ → ℤ
least m [] = m
least m (x ∷ xs) = least (min_ℤ m x) xs

abbrev pub greatest : ℤ → List ℤ → ℤ
greatest m [] = m
greatest m (x ∷ xs) = greatest (max_ℤ m x) xs

abbrev pub minimum : List ℤ → Result ℤ
minimum [] = err value_error
minimum (x ∷ xs) = ok (least x xs)

abbrev pub maximum : List ℤ → Result ℤ
maximum [] = err value_error
maximum (x ∷ xs) = ok (greatest x xs)

-- `r[i]`
abbrev pub index {ℓ} : {A : Type ℓ} → List A → ℕ → Result A
index r i = elim (get_elem? r i) [ none ↦ err index_error | some x ↦ ok x ]

-- `round(n / d, 2)` in hundredths; Python 2 rounds a half away from zero
abbrev pub round_up : ℕ → ℕ → ℕ
round_up n d = (2 * n + d) / (2 * d)

abbrev pub round_div : ℤ → ℕ → ℤ
round_div (pos n) d = pos (round_up n d)
round_div (negsuc n) d = neg (round_up (suc n) d)

pub record SeriesData : Type 0 where
  pub job_id : ℕ
  pub result_set_id : ℕ
  pub push_timestamp : ℕ
  pub total_replicates : ℕ
  pub min : ℤ
  pub max : ℤ
  pub mean : ℤ
  pub std : ℕ
  pub median : ℤ

-- The inner function `avg(s)` divides the sum of `r`, whatever it is given.
abbrev pub avg : List ℤ → List ℤ → ℤ
avg r s = round_div (sum r) (length r)

-- `math.sqrt(n / d)`, which raises ValueError below zero; `root n d` is the square root of n / d
-- hundredths, rounded to hundredths
abbrev pub sqrt : (ℕ → ℕ → ℕ) → ℤ → ℕ → Result ℕ
sqrt root (pos n) d = ok (root n d)
sqrt root (negsuc n) d = err value_error

pub median_of : List ℤ → Result ℤ
median_of r = if length r % 2 == 1 then index r (length r / 2) else do
  below ← index r (length r / 2 - 1)
  above ← index r (length r / 2)
  ok (avg r (below ∷ above ∷ []))

-- `r` is the sorted list of the replicates
pub series_of : (ℕ → ℕ → ℕ) → ℕ → ℕ → ℕ → List ℤ → Result SeriesData
unfolding median_of sum
series_of root job_id result_set_id push_timestamp r = do
  smallest ← minimum r
  largest ← maximum r
  std ← if ltb 0 (length r) then sqrt root (sum r) (length r) else ok 0
  median ← if ltb 0 (length r) then median_of r else ok (pos 0)
  ok (record {
    job_id = job_id;
    result_set_id = result_set_id;
    push_timestamp = push_timestamp;
    total_replicates = length r;
    min = smallest;
    max = largest;
    mean = if ltb 0 (length r) then round_div (sum r) (length r) else pos 0;
    std = std;
    median = median;
  })

pub calculate_series_data : (ℕ → ℕ → ℕ) → ℕ → ℕ → ℕ → List ℤ → Result SeriesData
unfolding series_of
calculate_series_data root job_id result_set_id push_timestamp replicates =
    series_of root job_id result_set_id push_timestamp (sorted leb_ℤ replicates)

-- `get_median_from_sorted_list`: `/` divides integers, and so rounds down
pub get_median_from_sorted_list : List ℕ → Result ℕ
get_median_from_sorted_list [] = ok 0
get_median_from_sorted_list (x ∷ []) = ok x
get_median_from_sorted_list r = if not (length r % 2 == 0) then index r (length r / 2) else do
  above ← index r (length r / 2)
  below ← index r (length r / 2 - 1)
  ok ((above + below) / 2)
