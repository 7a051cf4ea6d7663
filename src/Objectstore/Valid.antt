-- ===== src/Objectstore/Valid.antt =====
-- The invariant of the objectstore, kept by every call of every worker.
use treeherder_service.Prelude.{
  ℕ, ◌-◌, ◌≡◌, refl, Bool, true, false, not, ◌&&◌, none, some, List, [], ◌∷◌, map, keep, arith, ltb,
  Bool-cases, inl, inr, All, All-append,
}
use treeherder_service.Objectstore.{
  Row, Store, ready, loading, complete, Placeholder, empty, claimable, has_guid, store_json,
  mark_loading, claim_objects, complete_row, error_row, mark_complete, mark_object_error,
  cycle_objectstore,
}
use treeherder_service.Objectstore.Schedule.{Op, submit, load, finish, fail, cycle, run, run_all}
use treeherder_service.Objectstore.Rows.{
  Ascending, Distinct, Ascending-map, Ascending-mark_loading, Ascending-append, Distinct-map,
  Distinct-mark_loading, Distinct-append, Ascending-keep, Distinct-keep,
}

abbrev pub has_worker : Row → Bool
has_worker r = elim r.worker_id [ none ↦ false | some w ↦ true ]

-- A row that is ready belongs to no worker; one that is being loaded, or is done, belongs to the
-- worker that claimed it and carries no error.
abbrev pub consistent : Row → Bool
consistent r = elim r.processed_state [
  | ready ↦ not (has_worker r)
  | loading ↦ has_worker r && not r.error
  | complete ↦ has_worker r && not r.error
]

abbrev pub IsConsistent : Row → Type 0
IsConsistent r = consistent r ≡ true

pub record IsValid (s : Store) : Type 0 where
  pub ordered : Ascending 1 s.next_id s.rows
  pub distinct : Distinct s.rows
  pub each : All IsConsistent s.rows

All-map :
    (f : Row → Row) (rs : List Row)
    → ((q : Row) → IsConsistent q → IsConsistent (f q))
    → All IsConsistent rs
    → All IsConsistent (map f rs)
All-map f [] k h = h
All-map f (r ∷ rs) k h = (k r h.0, All-map f rs k h.1)

All-mark_loading :
    (c limit : ℕ) (rs : List Row) → All IsConsistent rs → All IsConsistent (mark_loading c limit rs)
unfolding mark_loading
All-mark_loading c limit [] h = h
All-mark_loading c limit (r ∷ rs) h = elim (Bool-cases (ltb 0 limit && claimable r)) [
  | inl e ↦ rw e (ground arith, All-mark_loading c (limit - 1) rs h.1)
  | inr e ↦ rw e (h.0, All-mark_loading c limit rs h.1)
]

-- An update of single rows that keeps ids and guids.
IsValid-map :
    (f : Row → Row) (s : Store)
    → ((q : Row) → (f q).id ≡ q.id)
    → ((q : Row) → (f q).job_guid ≡ q.job_guid)
    → ((q : Row) → IsConsistent q → IsConsistent (f q))
    → IsValid s
    → IsValid (record s { rows = map f s.rows })
IsValid-map f s ids guids k h = record {
  ordered = Ascending-map f 1 s.next_id s.rows ids h.ordered;
  distinct = Distinct-map f s.rows guids h.distinct;
  each = All-map f s.rows k h.each;
}

All-keep : (p : Row → Bool) (rs : List Row) → All IsConsistent rs → All IsConsistent (keep p rs)
All-keep p [] h = h
All-keep p (r ∷ rs) h = elim (Bool-cases (p r)) [
  | inl e ↦ rw e (h.0, All-keep p rs h.1)
  | inr e ↦ rw e (All-keep p rs h.1)
]

store_json-IsValid : (p : Placeholder) (s : Store) → IsValid s → IsValid (store_json p s)
unfolding store_json
store_json-IsValid p s h = elim (Bool-cases (has_guid p.job_guid s.rows)) [
  | inl e ↦ rw e h
  | inr e ↦ rw e (record {
    ordered = Ascending-append 1 s.next_id s.rows _ refl h.ordered;
    distinct = Distinct-append s.rows _ e h.distinct;
    each = All-append IsConsistent s.rows _ h.each (refl, tt);
  })
]

pub run-IsValid : (op : Op) (s : Store) → IsValid s → IsValid (run op s)
unfolding run cycle_objectstore claim_objects mark_complete mark_object_error complete_row error_row
run-IsValid (submit p) s h = store_json-IsValid p s h
run-IsValid (load c limit) s h = record {
  ordered = Ascending-mark_loading c limit 1 s.next_id s.rows h.ordered;
  distinct = Distinct-mark_loading c limit s.rows h.distinct;
  each = All-mark_loading c limit s.rows h.each;
}
run-IsValid (finish c revision_hash id) s h =
    IsValid-map (complete_row c revision_hash id) s (λ q. ground arith) (λ q. ground arith)
      (λ q k. ground arith) h
run-IsValid (fail c id msg) s h =
    IsValid-map (error_row c id msg) s (λ q. ground arith) (λ q. ground arith) (λ q k. ground arith)
      h
run-IsValid (cycle guids) s h = record {
  ordered = Ascending-keep _ 1 s.next_id s.rows h.ordered;
  distinct = Distinct-keep _ s.rows h.distinct;
  each = All-keep _ s.rows h.each;
}

-- Whatever the workers do, in whatever order, from a valid table: the ids rise and stay below the
-- next one, no two rows have a guid in common, and state, owner and error flag of each row agree.
pub run_all-IsValid : (ops : List Op) (s : Store) → IsValid s → IsValid (run_all ops s)
unfolding run_all
run_all-IsValid [] s h = h
run_all-IsValid (op ∷ ops) s h = run_all-IsValid ops (run op s) (run-IsValid op s h)

pub empty-IsValid : IsValid empty
empty-IsValid = record { ordered = omega arith; distinct = tt; each = tt }
