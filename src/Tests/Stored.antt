-- ===== src/Tests/Stored.antt =====
-- The theorem on the storing of pushes, at a concrete push.
use treeherder_service.Prelude.{
  ℕ, String, ◌≡◌, refl, Option, none, some, [], ◌∷◌, lookup, string_eq, insert, nat_eq,
}
use treeherder_service.Json.{Result, ok}
use treeherder_service.ResultSets.{
  PushDatum, Db, add_pushes, add_revisions, repository_id, has_hash, rev_row, hash_row,
}
use treeherder_service.ResultSets.Tables.{
  Stored, store_result_set_data, store_structs, map_rows, get_revisions, by_revision,
  get_result_set_ids, executemany, set_result_set, set_revision, has_revision,
}
use treeherder_service.ResultSets.Repeat.{again, store_result_set_data-again}

abbrev push : PushDatum
push = record {
  author = none;
  revision_hash = "rev";
  push_timestamp = 6;
  active_status = none;
  revisions =
      record {
        revision = "2c25d2bbbcd6";
        author = "John Doe";
        comment = none;
        files = "a.h" ∷ "b.h" ∷ [];
        commit_timestamp = none;
        repository = "try";
      }
      ∷ [];
}

abbrev no_pushes : Db
no_pushes = record {
  result_sets = [];
  next_result_set = 1;
  revisions = [];
  next_revision = 1;
  revision_map = [];
}

abbrev nothing_stored : Stored
nothing_stored = record {
  result_set_ids = [];
  revision_ids = [];
  inserted_result_set_ids = [];
  db = no_pushes;
}

abbrev or_nothing : Result (Option Stored) → Stored
or_nothing (ok (some s)) = s
or_nothing _ = nothing_stored

abbrev ask : String → Result ℕ
ask name = ok 1

-- a host that does not lag
abbrev read_host : Db → Db
read_host db = db

abbrev stored_push : Stored
stored_push = or_nothing (store_result_set_data ask read_host 1 (push ∷ []) no_pushes)

push_is_stored : store_result_set_data ask read_host 1 (push ∷ []) no_pushes ≡ ok (some stored_push)
unfolding store_result_set_data add_pushes add_revisions repository_id store_structs map_rows
    get_revisions by_revision get_result_set_ids executemany set_result_set set_revision has_hash
    has_revision lookup insert rev_row hash_row
push_is_stored = refl

store_result_set_data-again_example :
    store_result_set_data ask read_host 0 (push ∷ []) stored_push.db ≡ ok (some (again stored_push))
store_result_set_data-again_example =
    store_result_set_data-again ask read_host 1 0 (push ∷ []) no_pushes stored_push (λ d. refl)
      push_is_stored
