-- ===== src/Objectstore/Ownership.antt =====
-- What other workers can do to a row, and what no call but a deletion can do to it.
use treeherder_service.Prelude.{
  ℕ, String, ◌≡◌, refl, Bool, true, false, ◌&&◌, some, exists, List, [], ◌∷◌, map, arith,
  Bool-cases, inl, inr, All,
}
use treeherder_service.Objectstore.{
  Row, Store, ready, loading, complete, Placeholder, is_loading, is_worker, has_guid, store_json,
  claim_objects, complete_row, error_row, mark_complete, mark_object_error, cycle_objectstore,
}
use treeherder_service.Objectstore.Schedule.{
  Op, submit, load, finish, fail, cycle, deletes, run, run_all, ByOther,
}
use treeherder_service.Objectstore.Rows.{
  row_at, row_at-append, row_at-map, row_at-mark_loading, row_at-keep,
}

row_at-store_json :
    (id : ℕ) (p : Placeholder) (s : Store) (r : Row)
    → row_at id s.rows ≡ some r
    → row_at id (store_json p s).rows ≡ some r
unfolding store_json
row_at-store_json id p s r h = elim (Bool-cases (has_guid p.job_guid s.rows)) [
  | inl e ↦ rw e h
  | inr e ↦ rw e (row_at-append id s.rows _ r h)
]

-- Done, or failed: no worker's statement fits the row any more.
abbrev pub settled : Row → Bool
settled r = elim r.processed_state [ ready ↦ r.error | loading ↦ false | complete ↦ true ]

run-settled :
    (op : Op) (s : Store) (id : ℕ) (r : Row)
    → deletes r.job_guid op ≡ false
    → settled r ≡ true
    → row_at id s.rows ≡ some r
    → row_at id (run op s).rows ≡ some r
unfolding run cycle_objectstore claim_objects mark_complete mark_object_error complete_row error_row
run-settled (submit p) s id r n k h = row_at-store_json id p s r h
run-settled (load c limit) s id r n k h = row_at-mark_loading c limit id s.rows r (ground arith) h
run-settled (finish c revision_hash i) s id r n k h =
    row_at-map (complete_row c revision_hash i) id s.rows r (λ q. ground arith) (ground arith) h
run-settled (fail c i msg) s id r n k h =
    row_at-map (error_row c i msg) id s.rows r (λ q. ground arith) (ground arith) h
run-settled (cycle guids) s id r n k h = row_at-keep _ id s.rows r (rw n refl) h

-- A row that is complete, or ready with an error, stays exactly as it is under every sequence of
-- submissions, claims, completions, errors and deletions of which none deletes its guid.
pub run_all-settled :
    (ops : List Op) (s : Store) (id : ℕ) (r : Row)
    → exists (deletes r.job_guid) ops ≡ false
    → settled r ≡ true
    → row_at id s.rows ≡ some r
    → row_at id (run_all ops s).rows ≡ some r
unfolding run_all
run_all-settled [] s id r n k h = h
run_all-settled (op ∷ ops) s id r n k h =
    run_all-settled ops (run op s) id r (ground (arith, n)) k
      (run-settled op s id r (ground (arith, n)) k h)

-- the row is being loaded by the worker
abbrev pub loading_by : ℕ → Row → Bool
loading_by w r = is_loading r.processed_state && is_worker w r.worker_id

run-ByOther :
    (op : Op) (s : Store) (w id : ℕ) (r : Row)
    → ByOther w op
    → deletes r.job_guid op ≡ false
    → loading_by w r ≡ true
    → row_at id s.rows ≡ some r
    → row_at id (run op s).rows ≡ some r
unfolding run cycle_objectstore claim_objects mark_complete mark_object_error complete_row error_row
run-ByOther (submit p) s w id r o n k h = row_at-store_json id p s r h
run-ByOther (load c limit) s w id r o n k h =
    row_at-mark_loading c limit id s.rows r (ground arith) h
run-ByOther (finish c revision_hash i) s w id r o n k h =
    row_at-map (complete_row c revision_hash i) id s.rows r (λ q. ground arith) (ground arith) h
run-ByOther (fail c i msg) s w id r o n k h =
    row_at-map (error_row c i msg) id s.rows r (λ q. ground arith) (ground arith) h
run-ByOther (cycle guids) s w id r o n k h = row_at-keep _ id s.rows r (rw n refl) h

-- While a worker is loading a row, no sequence of calls of other workers changes the row, unless one
-- deletes it.
pub run_all-ByOther :
    (ops : List Op) (s : Store) (w id : ℕ) (r : Row)
    → All (ByOther w) ops
    → exists (deletes r.job_guid) ops ≡ false
    → loading_by w r ≡ true
    → row_at id s.rows ≡ some r
    → row_at id (run_all ops s).rows ≡ some r
unfolding run_all
run_all-ByOther [] s w id r o n k h = h
run_all-ByOther (op ∷ ops) s w id r o n k h =
    run_all-ByOther ops (run op s) w id r o.1 (ground (arith, n)) k
      (run-ByOther op s w id r o.0 (ground (arith, n)) k h)

row_at-complete_row :
    (w id : ℕ) (revision_hash : String) (rs : List Row) (r : Row)
    → loading_by w r ≡ true
    → row_at id rs ≡ some r
    → row_at id (map (complete_row w revision_hash id) rs)
      ≡ some (record r { processed_state = complete; revision_hash = some revision_hash })
unfolding row_at complete_row
row_at-complete_row w id revision_hash [] r k h = cc
row_at-complete_row w id revision_hash (q ∷ rs) r k h =
    ground (arith, row_at-complete_row w id revision_hash rs r k)

-- A row that a worker is loading is completed by that worker's call, whatever submissions, deletions
-- and calls of other workers come in between, as long as none deletes the guid of the row.
pub finish-after_others :
    (ops : List Op) (s : Store) (w id : ℕ) (revision_hash : String) (r : Row)
    → All (ByOther w) ops
    → exists (deletes r.job_guid) ops ≡ false
    → loading_by w r ≡ true
    → row_at id s.rows ≡ some r
    → row_at id (run (finish w revision_hash id) (run_all ops s)).rows
      ≡ some (record r { processed_state = complete; revision_hash = some revision_hash })
unfolding run mark_complete
finish-after_others ops s w id revision_hash r o n k h =
    row_at-complete_row w id revision_hash (run_all ops s).rows r k
      (run_all-ByOther ops s w id r o n k h)
