-- ===== src/ResultSets/Tables.antt =====
-- The statements of `store_result_set_data`, treeherder/model/derived/jobs.py, on the tables of
-- result sets and revisions.
use treeherder_service.Prelude.{
  ℕ, ◌+◌, String, Bool, true, not, ◌&&◌, ◌||◌, Option, none, some, List, [], ◌∷◌, ◌++◌, map, ◌==◌,
  ltb, str_eq, if◌then◌else◌, keep, exists, contains, lookup, insert, string_eq, nat_eq,
}
use treeherder_service.Json.{Result, ok, err, ◌>>=◌, key_error}
use treeherder_service.ResultSets.{
  Db, HashRow, PushDatum, ResultSet, RevRow, Revision, Structs, add_pushes, has_hash, no_structs,
  repository_id,
}

-- one run of a statement for each row of placeholders
unfoldable pub executemany : {P : Type 0} → (P → Db → Db) → List P → Db → Db
executemany step [] db = db
executemany step (p ∷ ps) db = executemany step ps (step p db)

-- jobs.inserts.set_result_set
unfoldable pub set_result_set : HashRow → Db → Db
unfolding has_hash
set_result_set p db = if has_hash p.revision_hash db.result_sets then db else record db {
  result_sets =
      db.result_sets
      ++ record {
        id = db.next_result_set;
        author = p.author;
        revision_hash = p.revision_hash;
        push_timestamp = p.push_timestamp;
        active_status = p.active_status;
      }
        ∷ [];
  next_result_set = db.next_result_set + 1;
}

unfoldable pub has_revision : String → ℕ → List Revision → Bool
has_revision revision repository_id =
    exists (λ r. str_eq r.revision revision && r.repository_id == repository_id)

-- jobs.inserts.set_revision
unfoldable pub set_revision : RevRow → Db → Db
set_revision p db = if has_revision p.revision p.repository_id db.revisions then db else record db {
  revisions =
      db.revisions
      ++ record {
        id = db.next_revision;
        revision = p.revision;
        author = p.author;
        comments = p.comments;
        files = p.files;
        commit_timestamp = p.commit_timestamp;
        repository_id = p.repository_id;
        active = true;
      }
        ∷ [];
  next_revision = db.next_revision + 1;
}

abbrev pub has_pair : ℕ × ℕ → List (ℕ × ℕ) → Bool
has_pair (r, s) = exists (λ p. p.0 == r && p.1 == s)

-- jobs.inserts.set_revision_map
unfoldable pub set_revision_map : ℕ × ℕ → Db → Db
set_revision_map p db =
    if has_pair p db.revision_map
    then db
    else record db { revision_map = db.revision_map ++ p ∷ [] }

abbrev pub is_listed : ResultSet → Bool
is_listed r = str_eq r.active_status "active" || str_eq r.active_status "onhold"

-- jobs.selects.get_result_set_ids: the rows by revision hash
unfoldable pub get_result_set_ids : List String → List ResultSet → List (String × ResultSet)
get_result_set_ids hashes rows =
    map (λ r. (r.revision_hash, r))
      (keep (λ r. is_listed r && contains r.revision_hash hashes) rows)

-- jobs.selects.get_revisions: the active rows, one entry by revision, the later row's
unfoldable pub by_revision : List Revision → List (String × Revision) → List (String × Revision)
by_revision [] d = d
by_revision (r ∷ rs) d = by_revision rs (insert r.revision r d)

unfoldable pub get_revisions : List String → List Revision → List (String × Revision)
get_revisions revisions rows =
    by_revision (keep (λ r. r.active && contains r.revision revisions) rows) []

-- the pairs of ids for the revision map
unfoldable pub map_rows :
    List (String × Revision)
    → List (String × String)
    → List (String × ResultSet)
    → Result (List (ℕ × ℕ))
map_rows [] rhash_of sets = ok []
map_rows ((revision, r) ∷ rs) rhash_of sets = elim (lookup revision rhash_of) [
  | none ↦ err (key_error revision)
  | some hash ↦ elim (lookup hash sets) [
    | none ↦ err (key_error hash)
    | some rset ↦ map_rows rs rhash_of sets >>= λ rest. ok ((r.id, rset.id) ∷ rest)
  ]
]

pub record Stored : Type 0 where
  pub result_set_ids : List (String × ResultSet)
  pub revision_ids : List (String × Revision)
  pub inserted_result_set_ids : List ℕ
  pub db : Db

-- The sets of the batch that have a row now and had none before; `lastrowid` is 0 where the
-- statement inserted nothing.
unfoldable pub inserted : List (String × ResultSet) → List (String × ResultSet) → List ℕ
inserted before after =
    map (λ e. e.1.id) (keep (λ e. not (contains e.0 (map (λ b. b.0) before))) after)

-- the statements on the tables: rows are written to the master, and ids are read from `read_host`,
-- which shows some tables while the master has those given
unfoldable pub store_structs : (Db → Db) → ℕ → Structs → Db → Result Stored
unfolding executemany get_result_set_ids get_revisions map_rows
store_structs read_host lastrowid st db =
    let hashes = map (λ p. p.revision_hash) st.hash_rows in
    let before = get_result_set_ids hashes (read_host db).result_sets in
    let db1 = executemany set_result_set st.hash_rows db in
    let after = get_result_set_ids hashes (read_host db1).result_sets in
    let db2 = executemany set_revision st.rev_rows db1 in
    let revisions = get_revisions (map (λ p. p.revision) st.rev_rows) (read_host db2).revisions in
    map_rows revisions st.rhash_of after >>= λ pairs. ok (record {
      result_set_ids = after;
      revision_ids = revisions;
      inserted_result_set_ids = if ltb 0 lastrowid then inserted before after else [];
      db = executemany set_revision_map pairs db2;
    })

-- Without result sets nothing is done, and an empty dictionary is answered.
unfoldable pub store_result_set_data :
    (String → Result ℕ) → (Db → Db) → ℕ → List PushDatum → Db → Result (Option Stored)
unfolding add_pushes store_structs
store_result_set_data ask read_host lastrowid [] db = ok none
store_result_set_data ask read_host lastrowid (d ∷ ds) db =
    add_pushes ask (d ∷ ds) no_structs >>= λ st.
    store_structs read_host lastrowid st db >>= λ stored. ok (some stored)
