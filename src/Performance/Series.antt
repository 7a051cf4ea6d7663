-- ===== src/Performance/Series.antt =====
-- `store_performance_series` of treeherder/model/derived/jobs.py. The statements on the table
-- `performance_series` are those of treeherder/model/sql/jobs.json.
pub mod Merge
use treeherder_service.Prelude.{
  ℕ, ◌-◌, String, ◌≡◌, Bool, Option, none, some, List, [], ◌∷◌, ◌++◌, map, ◌==◌, ◌&&◌, str_eq, leb,
  not, if◌then◌else◌, keep, sorted,
}
use treeherder_service.Json.{Result, ok, err, index_error, ◌>>=◌}
use treeherder_service.Performance.{SeriesData}

-- the `json` module, on lists of points
pub record Codec : Type 0 where
  pub dumps : List SeriesData → String
  pub loads : String → Result (List SeriesData)

pub record SeriesRow : Type 0 where
  pub interval_seconds : ℕ
  pub series_signature : String
  pub series_type : String
  pub last_updated : ℕ
  pub blob : String

abbrev pub new_series : ℕ → String → String → ℕ → String → SeriesRow
new_series t_range signature series_type now blob = record {
  interval_seconds = t_range;
  series_signature = signature;
  series_type = series_type;
  last_updated = now;
  blob = blob;
}

abbrev pub is_series : ℕ → String → SeriesRow → Bool
is_series t_range signature r = r.interval_seconds == t_range && str_eq r.series_signature signature

-- jobs.selects.get_performance_series: the blob of the first row
unfoldable pub blob_of : ℕ → String → List SeriesRow → Option String
blob_of t_range signature [] = none
blob_of t_range signature (r ∷ rs) =
    if is_series t_range signature r then some r.blob else blob_of t_range signature rs

-- jobs.inserts.set_performance_series
pub set_performance_series : SeriesRow → List SeriesRow → List SeriesRow
set_performance_series new rows = elim (blob_of new.interval_seconds new.series_signature rows) [
  | none ↦ rows ++ new ∷ []
  | some _ ↦ rows
]

-- jobs.updates.update_performance_series
pub update_row : ℕ → String → ℕ → String → SeriesRow → SeriesRow
update_row now blob t_range signature r =
    if is_series t_range signature r then record r { last_updated = now; blob = blob } else r

-- newest result set first, as `sorted(…, reverse=True)` does, which is stable too
abbrev pub newer_first : SeriesData → SeriesData → Bool
newer_first a b = leb b.result_set_id a.result_set_id

-- `push_timestamp >= now - t_range`; below 0 the limit lets all pass, as 0 does
abbrev pub is_recent : ℕ → ℕ → SeriesData → Bool
is_recent now t_range d = leb (now - t_range) d.push_timestamp

pub merge_series : ℕ → ℕ → List SeriesData → List SeriesData → List SeriesData
merge_series now t_range series series_data =
    keep (is_recent now t_range) (sorted newer_first (series ++ series_data))

-- `if filtered_series:`
pub write_series : Codec → ℕ → ℕ → String → List SeriesData → List SeriesRow → List SeriesRow
write_series codec now t_range signature [] rows = rows
write_series codec now t_range signature (d ∷ ds) rows =
    map (update_row now (codec.dumps (d ∷ ds)) t_range signature) rows

-- `lock` is what MySQL's GET_LOCK answers, 1 if the lock was got; the series is read from
-- `read_host`, which shows some rows while the master has those given. The result of the call, and the
-- table: what was inserted before an exception stays.
pub store_performance_series :
    Codec
    → (List SeriesRow → List SeriesRow)
    → ℕ
    → ℕ
    → ℕ
    → String
    → String
    → List SeriesData
    → List SeriesRow
    → Result (Unit {0}) × List SeriesRow
store_performance_series codec read_host lock now t_range series_type signature series_data rows =
    let text = codec.dumps series_data in
    let inserted =
      set_performance_series (new_series t_range signature series_type now text) rows in
    if not (lock == 1)
    then (ok tt, rows)
    else elim (blob_of t_range signature (read_host inserted)) [
      | none ↦ (err index_error, inserted)
      | some stored ↦ if str_eq text stored then (ok tt, inserted) else elim (codec.loads stored) [
        | err e ↦ (err e, inserted)
        | ok series ↦ (
          ok tt,
          write_series codec now t_range signature (merge_series now t_range series series_data)
              inserted,
        )
      ]
    ]
