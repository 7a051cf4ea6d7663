-- ===== src/Objectstore/Schedule.antt =====
-- Several workers on one objectstore: an interleaving is the list of the calls in the order in
-- which the database carries them out.
use treeherder_service.Prelude.{ℕ, String, Bool, false, ◌≢◌, List, [], ◌∷◌, contains, string_eq}
use treeherder_service.Objectstore.{
  Store, Placeholder, store_json, claim_objects, mark_complete, mark_object_error,
  cycle_objectstore,
}

pub data Op : Type 0 where
  submit : Placeholder → Op
  load : ℕ → ℕ → Op
  finish : ℕ → String → ℕ → Op
  fail : ℕ → ℕ → String → Op
  cycle : List String → Op

unfoldable pub run : Op → Store → Store
run (submit p) s = store_json p s
run (load c limit) s = (claim_objects c limit s).1
run (finish c revision_hash id) s = mark_complete c revision_hash id s
run (fail c id msg) s = mark_object_error c id msg s
run (cycle guids) s = cycle_objectstore guids s

unfoldable pub run_all : List Op → Store → Store
unfolding run
run_all [] s = s
run_all (op ∷ ops) s = run_all ops (run op s)

-- the call is the deletion that cycle_data makes, and it deletes the rows of the guid
abbrev pub deletes : String → Op → Bool
deletes guid (cycle guids) = contains guid guids
deletes guid _ = false

-- the call is not one of the worker's
abbrev pub ByOther : ℕ → Op → Type 0
ByOther w (submit p) = Unit
ByOther w (load c limit) = c ≢ w
ByOther w (finish c revision_hash id) = c ≢ w
ByOther w (fail c id msg) = c ≢ w
ByOther w (cycle guids) = Unit
