-- ===== src/Performance/Series/Merge.antt =====
-- What a stored series holds behind a call of `store_performance_series`.
use treeherder_service.Prelude.{
  ℕ, ◌≤◌, String, ◌≡◌, refl, ap, ◌∙◌, Bool, true, false, none, some, List, [], ◌∷◌, ◌++◌, map, ◌&&◌,
  str_eq, arith, keep, sorted, IsSorted, sorted-IsSorted, tally, tally-sorted, All, Bool-cases, inl,
  inr, leb→le, eq_refl,
}
use treeherder_service.Json.{Result, ok}
use treeherder_service.Performance.{SeriesData}
use treeherder_service.Performance.Series.{
  Codec, SeriesRow, is_series, blob_of, set_performance_series, update_row, newer_first, is_recent,
  merge_series, write_series, new_series, store_performance_series,
}

module _ {ℓ} {A : Type ℓ} where
  All-keep : (p : A → Bool) (xs : List A) → All (λ x. p x ≡ true) (keep p xs)
  All-keep p [] = tt
  All-keep p (x ∷ xs) = elim (Bool-cases (p x)) [
    | inl e ↦ rw e (e, All-keep p xs)
    | inr e ↦ rw e (All-keep p xs)
  ]

  tally-keep : (p q : A → Bool) (xs : List A) → tally q (keep p xs) ≡ tally (λ x. p x && q x) xs
  tally-keep p q [] = refl
  tally-keep p q (x ∷ xs) = elim (Bool-cases (p x)) [
    | inl e ↦ rw e (omega (arith, tally-keep p q xs))
    | inr e ↦ rw e (omega (arith, tally-keep p q xs))
  ]

-- newest first, with a bound from above
abbrev Descending : ℕ → List SeriesData → Type 0
Descending hi [] = Unit
Descending hi (d ∷ ds) = (d.result_set_id ≤ hi) × Descending d.result_set_id ds

Descending-weaken :
    (hi hi' : ℕ) (ds : List SeriesData) → hi ≤ hi' → Descending hi ds → Descending hi' ds
Descending-weaken hi hi' [] h k = tt
Descending-weaken hi hi' (d ∷ ds) h k = (omega arith, k.1)

Descending-keep :
    (p : SeriesData → Bool) (hi : ℕ) (ds : List SeriesData)
    → Descending hi ds
    → Descending hi (keep p ds)
Descending-keep p hi [] h = tt
Descending-keep p hi (d ∷ ds) h = elim (Bool-cases (p d)) [
  | inl e ↦ rw e (h.0, Descending-keep p d.result_set_id ds h.1)
  | inr e ↦ rw e (
      Descending-weaken d.result_set_id hi (keep p ds) h.0
        (Descending-keep p d.result_set_id ds h.1))
]

-- sorted newest first, whatever the first bound
abbrev pub IsNewestFirst : List SeriesData → Type 0
IsNewestFirst [] = Unit
IsNewestFirst (d ∷ ds) = Descending d.result_set_id ds

IsNewestFirst-sorted : (ds : List SeriesData) → IsSorted newer_first ds → IsNewestFirst ds
IsNewestFirst-sorted [] h = tt
IsNewestFirst-sorted (d ∷ []) h = tt
IsNewestFirst-sorted (d ∷ e ∷ ds) h =
    (leb→le e.result_set_id d.result_set_id h.0, IsNewestFirst-sorted (e ∷ ds) h.1)

drop : (hi : ℕ) (es : List SeriesData) → Descending hi es → IsNewestFirst es
drop hi [] h = tt
drop hi (e ∷ es) h = h.1

IsNewestFirst-keep :
    (p : SeriesData → Bool) (ds : List SeriesData) → IsNewestFirst ds → IsNewestFirst (keep p ds)
IsNewestFirst-keep p [] h = tt
IsNewestFirst-keep p (d ∷ ds) h = elim (Bool-cases (p d)) [
  | inl e ↦ rw e (Descending-keep p d.result_set_id ds h)
  | inr e ↦ rw e (drop d.result_set_id (keep p ds) (Descending-keep p d.result_set_id ds h))
]

-- The merged series runs from the newest result set to the oldest, holds only points inside the
-- time range, and holds each recent point as often as the old series and the new data together.
pub merge_series_lem :
    (now t_range : ℕ) (series series_data : List SeriesData)
    → IsNewestFirst (merge_series now t_range series series_data)
      × All (λ d. is_recent now t_range d ≡ true) (merge_series now t_range series series_data)
      × ((q : SeriesData → Bool)
          → tally q (merge_series now t_range series series_data)
            ≡ tally (λ d. is_recent now t_range d && q d) (series ++ series_data))
unfolding merge_series
merge_series_lem now t_range series series_data =
    let all = series ++ series_data in
    (
      IsNewestFirst-keep (is_recent now t_range) (sorted newer_first all) (
          IsNewestFirst-sorted (sorted newer_first all)
            (sorted-IsSorted newer_first (λ x y h. ground arith) all)),
      All-keep (is_recent now t_range) (sorted newer_first all),
      λ q.
          tally-keep (is_recent now t_range) q (sorted newer_first all)
          ∙ tally-sorted newer_first (λ d. is_recent now t_range d && q d) all,
    )

module _ (codec : Codec) where
  abbrev pub kept_or_merged : String → List SeriesData → String
  kept_or_merged stored [] = stored
  kept_or_merged stored (d ∷ ds) = codec.dumps (d ∷ ds)

-- a call that got the lock, on a series that is stored with another text
module _ (codec : Codec) (read_host : List SeriesRow → List SeriesRow) (now t_range : ℕ)
    (series_type signature : String) (series_data : List SeriesData) (rows : List SeriesRow) where
  abbrev pub stores : Result (Unit {0}) × List SeriesRow
  stores =
      store_performance_series codec read_host 1 now t_range series_type signature series_data rows

  blob_of-append :
      (rs : List SeriesRow) (r : SeriesRow)
      → blob_of t_range signature rs ≡ none
      → is_series t_range signature r ≡ true
      → blob_of t_range signature (rs ++ r ∷ []) ≡ some r.blob
  unfolding blob_of
  blob_of-append [] r h k = rw k refl
  blob_of-append (q ∷ rs) r h k = ground (arith, blob_of-append rs r)

  blob_of-update :
      (blob old : String) (rs : List SeriesRow)
      → blob_of t_range signature rs ≡ some old
      → blob_of t_range signature (map (update_row now blob t_range signature) rs) ≡ some blob
  unfolding blob_of update_row
  blob_of-update blob old [] h = cc
  blob_of-update blob old (r ∷ rs) h = elim (Bool-cases (is_series t_range signature r)) [
    | inl e ↦ rw (e, e) refl
    | inr e ↦ rw (e, e) (blob_of-update blob old rs (rw e at h))
  ]

  abbrev new : SeriesRow
  new = new_series t_range signature series_type now (codec.dumps series_data)

  blob_of-set_performance_series-new :
      blob_of t_range signature rows ≡ none
      → blob_of t_range signature (set_performance_series new rows) ≡ some (codec.dumps series_data)
  unfolding set_performance_series
  blob_of-set_performance_series-new h =
      rw (h, set_performance_series) (blob_of-append rows new h (ground (arith, eq_refl signature)))

  set_performance_series_known :
      (stored : String)
      → blob_of t_range signature rows ≡ some stored
      → set_performance_series new rows ≡ rows
  unfolding set_performance_series
  set_performance_series_known stored h = rw (h, set_performance_series) refl

  blob_of-write_series :
      (ds : List SeriesData) (stored : String)
      → blob_of t_range signature rows ≡ some stored
      → blob_of t_range signature (write_series codec now t_range signature ds rows)
        ≡ some (kept_or_merged codec stored ds)
  unfolding write_series
  blob_of-write_series [] stored h = h
  blob_of-write_series (d ∷ ds) stored h = blob_of-update (codec.dumps (d ∷ ds)) stored rows h

  -- Where the host that is read does not lag, the first call for a time range and a signature stores
  -- the data as they are given, neither sorted nor cut to the time range.
  store_performance_series_first :
      ((rs : List SeriesRow) → read_host rs ≡ rs)
      → blob_of t_range signature rows ≡ none
      → (stores.0 ≡ ok tt) × (blob_of t_range signature stores.1 ≡ some (codec.dumps series_data))
  unfolding store_performance_series
  store_performance_series_first no_lag h =
      let found = blob_of-set_performance_series-new h in
      let read =
        ap (blob_of t_range signature) (no_lag (set_performance_series new rows)) ∙ found in
      rw (read, eq_refl (codec.dumps series_data)) (refl, found)

  -- A call that got the lock, on a series that is stored, and that reads a series other than its own
  -- data from the host that may lag, stores that series merged with the data, whatever the stored one
  -- is, unless no point of them is recent: then the stored series stays as it is.
  pub store_performance_series_later :
      (series : List SeriesData) (stored read : String)
      → blob_of t_range signature rows ≡ some stored
      → blob_of t_range signature (read_host rows) ≡ some read
      → codec.loads read ≡ ok series
      → str_eq (codec.dumps series_data) read ≡ false
      → (stores.0 ≡ ok tt)
        × (blob_of t_range signature stores.1
            ≡ some (kept_or_merged codec stored (merge_series now t_range series series_data)))
  unfolding store_performance_series
  store_performance_series_later series stored read h g k n =
      let same = set_performance_series_known stored h in
      let found = ap (λ rs. blob_of t_range signature (read_host rs)) same ∙ g in
      rw (found, n, k)
        (rw same
          (refl, blob_of-write_series (merge_series now t_range series series_data) stored h))
