-- ===== src/ResultSets.antt =====
-- `store_result_set_data` of treeherder/model/derived/jobs.py, with the statements of
-- treeherder/model/sql/jobs.json that it runs on the tables of result sets and revisions. Sets and
-- dictionaries are gone through in the order of their rows.
pub mod Tables
pub mod Insertions
pub mod Repeat
use Prim.Native.String.{◌++◌ as append}
use treeherder_service.Prelude.{
  ℕ, zero, ◌+◌, String, Bool, true, false, not, ◌&&◌, ◌||◌, Option, none, some, List, [], ◌∷◌, ◌++◌,
  map, ◌==◌, ltb, str_eq, if◌then◌else◌, keep, exists, contains, lookup, insert, string_eq, nat_eq,
  Eq,
}
use treeherder_service.Json.{Result, ok, err, ◌>>=◌, key_error}

-- one revision of a push; `get` gives None, or no files, where the data has no entry
pub record RevDatum : Type 0 where
  pub revision : String
  pub author : String
  pub comment : Option String
  pub files : List String
  pub commit_timestamp : Option ℕ
  pub repository : String

pub record PushDatum : Type 0 where
  pub author : Option String
  pub revision_hash : String
  pub push_timestamp : ℕ
  pub active_status : Option String
  pub revisions : List RevDatum

pub record ResultSet : Type 0 where
  pub id : ℕ
  pub author : String
  pub revision_hash : String
  pub push_timestamp : ℕ
  pub active_status : String

pub record Revision : Type 0 where
  pub id : ℕ
  pub revision : String
  pub author : String
  pub comments : Option String
  pub files : String
  pub commit_timestamp : Option ℕ
  pub repository_id : ℕ
  pub active : Bool

-- the tables with the ids that their next rows take, and the pairs of the revision map
pub record Db : Type 0 where
  pub result_sets : List ResultSet
  pub next_result_set : ℕ
  pub revisions : List Revision
  pub next_revision : ℕ
  pub revision_map : List (ℕ × ℕ)

-- a row of `revision_hash_placeholders`
pub record HashRow : Type 0 where
  pub author : String
  pub revision_hash : String
  pub push_timestamp : ℕ
  pub active_status : String

-- a row of `revision_placeholders`
pub record RevRow : Type 0 where
  pub revision : String
  pub author : String
  pub comments : Option String
  pub files : String
  pub commit_timestamp : Option ℕ
  pub repository_id : ℕ

abbrev pub or_text : String → Option String → String
or_text d none = d
or_text d (some s) = s

-- `",".join(files)`
unfoldable pub join : List String → String
join [] = ""
join (f ∷ []) = f
join (f ∷ g ∷ fs) = append f (append "," (join (g ∷ fs)))

unfoldable pub hash_row : PushDatum → HashRow
hash_row d = record {
  author = or_text "unknown@somewhere.com" d.author;
  revision_hash = d.revision_hash;
  push_timestamp = d.push_timestamp;
  active_status = or_text "active" d.active_status;
}

unfoldable pub rev_row : ℕ → RevDatum → RevRow
rev_row repository_id r = record {
  revision = r.revision;
  author = r.author;
  comments = r.comment;
  files = join r.files;
  commit_timestamp = r.commit_timestamp;
  repository_id = repository_id;
}

-- The repository ids that were asked for, so that each is asked for once; `ask` is
-- `refdata_model.get_repository_id`, which raises for a name that it does not know.
unfoldable pub repository_id :
    (String → Result ℕ) → String → List (String × ℕ) → Result (ℕ × List (String × ℕ))
repository_id ask name known = elim (lookup name known) [
  | some id ↦ ok (id, known)
  | none ↦ ask name >>= λ id. ok (id, insert name id known)
]

pub record Structs : Type 0 where
  pub hash_rows : List HashRow
  pub known : List (String × ℕ)
  pub rev_rows : List RevRow
  pub rhash_of : List (String × String)

unfoldable pub add_revisions :
    (String → Result ℕ) → String → List RevDatum → Structs → Result Structs
unfolding repository_id rev_row
add_revisions ask hash [] st = ok st
add_revisions ask hash (r ∷ rs) st = repository_id ask r.repository st.known >>= λ k.
    add_revisions ask hash rs (record {
      hash_rows = st.hash_rows;
      known = k.1;
      rev_rows = st.rev_rows ++ rev_row k.0 r ∷ [];
      rhash_of = insert r.revision hash st.rhash_of;
    })

unfoldable pub add_pushes : (String → Result ℕ) → List PushDatum → Structs → Result Structs
unfolding hash_row add_revisions
add_pushes ask [] st = ok st
add_pushes ask (d ∷ ds) st =
    add_revisions ask d.revision_hash d.revisions
      (record st { hash_rows = st.hash_rows ++ hash_row d ∷ [] })
    >>= λ st'. add_pushes ask ds st'

abbrev pub no_structs : Structs
no_structs = record { hash_rows = []; known = []; rev_rows = []; rhash_of = [] }

unfoldable pub has_hash : String → List ResultSet → Bool
has_hash hash = exists (λ r. str_eq r.revision_hash hash)
