-- ===== src/Tests/Numbers.antt =====
-- The theorems on performance data, at concrete inputs.
use Prim.{tt}
use treeherder_service.Prelude.{
  ℤ, pos, negsuc, String, ℕ, ◌≡◌, refl, true, ◌&&◌, Bool, some, List, [], ◌∷◌, arith, tally, All,
  str_eq, if◌then◌else◌,
}
use treeherder_service.Json.{Result, ok, err, value_error}
use treeherder_service.Query.{split_commas}
use treeherder_service.Eta.{Times, EtaGroup, EtaRow, sample, eta_rows}
use treeherder_service.Eta.Medians.{Reads, SummariseAll, eta_rows_lem}
use treeherder_service.Performance.{SeriesData}
use treeherder_service.Performance.Series.{Codec, SeriesRow, blob_of, is_recent, merge_series}
use treeherder_service.Performance.Series.Merge.{
  IsNewestFirst, kept_or_merged, stores, merge_series_lem, store_performance_series_later,
}

abbrev root : ℕ → ℕ → ℕ
root s n = s

abbrev replicates : List ℤ
replicates = pos 4 ∷ pos 9 ∷ negsuc 4 ∷ []

abbrev point : SeriesData
point = record {
  job_id = 1;
  result_set_id = 2;
  push_timestamp = 900;
  total_replicates = 3;
  min = pos 4;
  max = pos 9;
  mean = pos 6;
  std = 1;
  median = pos 5;
}

abbrev later_point : SeriesData
later_point = record point { job_id = 2; result_set_id = 3 }

merge_series_example :
    IsNewestFirst (merge_series 1000 500 (point ∷ []) (later_point ∷ []))
    × All (λ d. is_recent 1000 500 d ≡ true) (merge_series 1000 500 (point ∷ []) (later_point ∷ []))
    × ((q : SeriesData → Bool)
        → tally q (merge_series 1000 500 (point ∷ []) (later_point ∷ []))
          ≡ tally (λ d. is_recent 1000 500 d && q d) (point ∷ later_point ∷ []))
merge_series_example = merge_series_lem 1000 500 (point ∷ []) (later_point ∷ [])

-- texts that stand for the lists without a point, with one, and with more
abbrev codec : Codec
codec = record {
  dumps = λ ps. elim ps [ [] ↦ "[]" | p ∷ qs ↦ elim qs [ [] ↦ "[p]" | q ∷ rest ↦ "[p, q]" ] ];
  loads = λ s.
      if str_eq s "[p, q]"
      then ok (later_point ∷ point ∷ [])
      else if str_eq s "[p]"
      then ok (point ∷ [])
      else ok [];
}

abbrev rows : List SeriesRow
rows =
    record {
      interval_seconds = 500;
      series_signature = "sig";
      series_type = "talos";
      last_updated = 1;
      blob = "[p]";
    }
    ∷ []

-- a host that does not lag
abbrev read_host : List SeriesRow → List SeriesRow
read_host rows = rows

store_performance_series_later_example :
    ((stores codec read_host 1000 500 "talos" "sig" (later_point ∷ point ∷ []) rows).0 ≡ ok tt)
    × (blob_of 500 "sig"
          (stores codec read_host 1000 500 "talos" "sig" (later_point ∷ point ∷ []) rows).1
        ≡ some (
            kept_or_merged codec "[p]"
              (merge_series 1000 500 (point ∷ []) (later_point ∷ point ∷ []))))
unfolding blob_of
store_performance_series_later_example =
    store_performance_series_later codec read_host 1000 500 "talos" "sig" (later_point ∷ point ∷ [])
      rows (point ∷ []) "[p]" "[p]" refl refl refl refl

abbrev int : String → Result ℕ
int s = if str_eq s "10" then ok 10 else if str_eq s "12" then ok 12 else err value_error

abbrev times : Times
times = record { avg_sec = 11; min_sec = 10; max_sec = 12; std = 1; samples = "12,10" }

abbrev group : EtaGroup
group = record { signature = "sig"; pending = times; running = times }

times_are_read : Reads int 7 10 12 times
unfolding sample split_commas
times_are_read = ((12, refl, omega arith, omega arith), ((10, refl, omega arith, omega arith), tt))

eta_rows_example :
    (rs : List EtaRow) × (eta_rows int 7 (group ∷ []) ≡ ok rs)
    × SummariseAll int 7 10 12 (group ∷ []) rs
eta_rows_example = eta_rows_lem int 7 10 12 (group ∷ []) ((times_are_read, times_are_read), tt)
