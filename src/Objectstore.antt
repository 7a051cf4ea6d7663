-- ===== src/Objectstore.antt =====
-- treeherder/model/derived/jobs.py, the objectstore: the queue of submitted jobs between the web
-- service and the workers, with the statements of treeherder/model/sql/objectstore.json that the
-- methods run. A worker is its database connection, `CONNECTION_ID()`.
pub mod Schedule
pub mod Rows
pub mod Valid
pub mod Claims
pub mod Ownership
pub mod Submission
use Prim.Native.String.{◌++◌ as append}
use treeherder_service.Prelude.{
  ℕ, suc, ◌+◌, ◌-◌, String, Bool, true, false, not, ◌&&◌, Option, none, some, List, [], ◌∷◌, ◌++◌,
  map, ltb, ◌==◌, str_eq, if◌then◌else◌, keep, exists, insert, contains, string_eq,
}
use treeherder_service.Json.{Json, PyError, Result, ok, err, ◌>>=◌, get_item}

pub data ProcessedState : Type 0 where
  ready loading complete : ProcessedState

-- a row of the table; `error` is true for 'Y'
pub record Row : Type 0 where
  pub id : ℕ
  pub job_guid : String
  pub revision_hash : Option String
  pub loaded_timestamp : ℕ
  pub processed_state : ProcessedState
  pub error : Bool
  pub error_msg : Option String
  pub json_blob : String
  pub worker_id : Option ℕ

-- the rows in the order of their ids, and the next AUTO_INCREMENT value
pub record Store : Type 0 where
  pub rows : List Row
  pub next_id : ℕ

abbrev pub empty : Store
empty = record { rows = []; next_id = 1 }

abbrev pub is_ready : ProcessedState → Bool
is_ready ready = true
is_ready _ = false

abbrev pub is_loading : ProcessedState → Bool
is_loading loading = true
is_loading _ = false

abbrev pub is_worker : ℕ → Option ℕ → Bool
is_worker c none = false
is_worker c (some w) = w == c

-- one row of placeholders for `store_json`; the last placeholder repeats the guid
pub record Placeholder : Type 0 where
  pub loaded_timestamp : ℕ
  pub job_guid : String
  pub json_blob : String
  pub error : Bool
  pub error_msg : String

pub has_guid : String → List Row → Bool
has_guid guid = exists (λ r. str_eq r.job_guid guid)

-- the row that `store_json` inserts; the columns that it does not name have their defaults
abbrev pub new_row : ℕ → Placeholder → Row
new_row id p = record {
  id = id;
  job_guid = p.job_guid;
  revision_hash = none;
  loaded_timestamp = p.loaded_timestamp;
  processed_state = ready;
  error = p.error;
  error_msg = some p.error_msg;
  json_blob = p.json_blob;
  worker_id = none;
}

-- objectstore.inserts.store_json
pub store_json : Placeholder → Store → Store
store_json p s =
    if has_guid p.job_guid s.rows
    then s
    else record { rows = s.rows ++ new_row s.next_id p ∷ []; next_id = s.next_id + 1 }

-- executemany: one statement for each row of placeholders
pub store_all : List Placeholder → Store → Store
store_all [] s = s
store_all (p ∷ ps) s = store_all ps (store_json p s)

-- what the method takes of the `json` module, of the exceptions' texts, of the clock, and of the
-- database: `column` is the text that it stores for a value in the column of the guid
pub record Runtime : Type 0 where
  pub dumps : Json → String
  pub column : Json → String
  pub message : PyError → String
  pub now : ℕ

-- `job['job']['job_guid']`, of whatever type it is
pub guid_of : Json → Result Json
guid_of job = do inner ← get_item "job" job; get_item "job_guid" inner

-- one turn of the loop of `store_job_data`: the response and the rows of placeholders so far.
-- `error` is the local variable, 'N' or 'Y' by now; the message is that same variable.
abbrev pub flag : Option String → String
flag none = "N"
flag (some e) = "Y"

queue_job :
    Runtime
    → Option String
    → Json
    → Result Json
    → List (String × Json) × List Placeholder
    → List (String × Json) × List Placeholder
queue_job rt error job (ok guid) (response, placeholders) = (
  response,
  placeholders
      ++ (record {
        loaded_timestamp = rt.now;
        job_guid = rt.column guid;
        json_blob = rt.dumps job;
        error = str_eq (flag error) "Y";
        error_msg = flag error;
      })
        ∷ [],
)
queue_job rt error job (err e) (response, placeholders) =
    (insert (append "Unknown error: " (rt.message e)) job response, placeholders)

pub queue_jobs :
    Runtime
    → Option String
    → List Json
    → List (String × Json) × List Placeholder
    → List (String × Json) × List Placeholder
unfolding queue_job guid_of
queue_jobs rt error [] acc = acc
queue_jobs rt error (job ∷ jobs) acc =
    queue_jobs rt error jobs (queue_job rt error job (guid_of job) acc)

-- the response, and the table behind the insertion
pub store_job_data : Runtime → List Json → Option String → Store → List (String × Json) × Store
unfolding queue_jobs store_all store_json
store_job_data rt json_data error s =
    let (response, placeholders) = queue_jobs rt error json_data ([], []) in
    (response, store_all placeholders s)

-- objectstore.updates.mark_loading: the first rows by id that are ready and without an error, as
-- many as the limit allows
abbrev pub claimable : Row → Bool
claimable r = is_ready r.processed_state && not r.error

abbrev pub claim : ℕ → Row → Row
claim c r = record r { processed_state = loading; worker_id = some c }

pub mark_loading : ℕ → ℕ → List Row → List Row
mark_loading c limit [] = []
mark_loading c limit (r ∷ rs) =
    let taken = ltb 0 limit && claimable r in
    (if taken then claim c r else r) ∷ mark_loading c (if taken then limit - 1 else limit) rs

-- objectstore.selects.get_claimed
abbrev pub claimed_by : ℕ → Row → Bool
claimed_by c r = is_worker c r.worker_id && is_loading r.processed_state && not r.error

pub get_claimed : ℕ → List Row → List Row
get_claimed c = keep (claimed_by c)

-- The rows that the worker has claimed, and the table with them marked.
pub claim_objects : ℕ → ℕ → Store → List Row × Store
unfolding mark_loading get_claimed
claim_objects c limit s =
    let marked = mark_loading c limit s.rows in (get_claimed c marked, record s { rows = marked })

-- objectstore.updates.mark_complete: the WHERE clause, and the row behind the update
abbrev pub held_by : ℕ → ℕ → Row → Bool
held_by c id r = is_loading r.processed_state && r.id == id && is_worker c r.worker_id

complete_row : ℕ → String → ℕ → Row → Row
complete_row c revision_hash id r =
    if held_by c id r
    then record r { processed_state = complete; revision_hash = some revision_hash }
    else r

pub mark_complete : ℕ → String → ℕ → Store → Store
unfolding complete_row
mark_complete c revision_hash id s = record s {
  rows = map (complete_row c revision_hash id) s.rows;
}

-- one statement for each `[revision_hash, object_id]`
pub mark_objects_complete : ℕ → List (String × ℕ) → Store → Store
unfolding mark_complete
mark_objects_complete c [] s = s
mark_objects_complete c ((revision_hash, id) ∷ ps) s =
    mark_objects_complete c ps (mark_complete c revision_hash id s)

-- objectstore.updates.mark_error
error_row : ℕ → ℕ → String → Row → Row
error_row c id msg r =
    if held_by c id r
    then record r { processed_state = ready; worker_id = none; error = true; error_msg = some msg }
    else r

pub mark_object_error : ℕ → ℕ → String → Store → Store
unfolding error_row
mark_object_error c id msg s = record s { rows = map (error_row c id msg) s.rows }

-- objectstore.deletes.cycle_objectstore
pub cycle_objectstore : List String → Store → Store
cycle_objectstore guids s = record s { rows = keep (λ r. not (contains r.job_guid guids)) s.rows }
