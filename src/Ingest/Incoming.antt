-- ===== src/Ingest/Incoming.antt =====
-- The data of a batch, and `_remove_existing_jobs` of treeherder/model/derived/jobs.py: which of
-- them are passed on.
use Prim.Native.String.{◌++◌ as append}
use treeherder_service.Prelude.{
  ℕ, String, Bool, not, ◌&&◌, ◌||◌, Option, none, some, List, [], ◌∷◌, map, str_eq, if◌then◌else◌,
  keep, exists, contains, string_eq,
}
use treeherder_service.Json.{Result, ok, err, ◌>>=◌, PyError, key_error, job_data_error}
use treeherder_service.Jobs.{Job, Table}
use treeherder_service.RefData.{RefData, Library}
use treeherder_service.Ingest.{JobBlob, Python}
use treeherder_service.Ingest.Ids.{IdLookups, ResultSetId, EtaRow}

-- the dictionary of one datum, with the keys that it may lack
pub record JobDatum : Type 0 where
  pub job : Option JobBlob
  pub revision_hash : Option String
  pub coalesced : List String

-- a text that is still to be parsed, or the dictionary itself
pub data Source : Type 0 where
  json_blob : String → Source
  dictionary : JobDatum → Source

pub record Datum : Type 0 where
  pub id : Option ℕ
  pub source : Source

-- What the method takes of its surroundings: the texts of exceptions, the parsing of a blob, the
-- rows of `job` that the host shows that is read, which may lag behind the master's table, and the
-- answers of the database to the queries for ids.
pub record Environment : Type 0 where
  pub python : Python
  pub library : Library
  pub project : String
  pub connection : ℕ
  pub message : PyError → String
  pub read_host : Table → List Job
  pub from_json : String → Result JobDatum
  pub set_all_reference_data : RefData → IdLookups
  pub get_result_set_ids : List String → String → Option ResultSetId
  pub get_last_eta_by_signatures : List String → List EtaRow

abbrev pub required {ℓ} : {A : Type ℓ} → PyError → Option A → Result A
required e none = err e
required e (some a) = ok a

-- the text of the JobDataError for a key that is missing at the top
abbrev pub missing_data : String → PyError
missing_data k = job_data_error (append "Missing data: ['" (append k "']."))

-- what is read of a datum: the job, the revision hash, the coalesced guids
unfoldable pub read_datum : Environment → Source → Result (JobBlob × String × List String)
read_datum env (json_blob text) = do
  d ← env.from_json text
  revision_hash ← required (missing_data "revision_hash") d.revision_hash
  job ← required (missing_data "job") d.job
  ok (job, revision_hash, d.coalesced)
read_datum env (dictionary d) = do
  job ← required (key_error "job") d.job
  revision_hash ← required (key_error "revision_hash") d.revision_hash
  ok (job, revision_hash, d.coalesced)

abbrev pub job_of : Environment → Source → Result JobBlob
job_of env (json_blob text) = env.from_json text >>= λ d. required (missing_data "job") d.job
job_of env (dictionary d) = required (key_error "job") d.job

abbrev pub is_state : String → Bool
is_state s = str_eq s "pending" || str_eq s "running" || str_eq s "completed"

-- the guid and the state under which a datum is looked for
unfoldable pub guid_and_state : Environment → Datum → Result (String × String)
guid_and_state env d = do
  job ← job_of env d.source
  guid ← required (key_error "job_guid") job.job_guid
  state ← required (key_error "state") job.state
  if is_state state then ok (guid, state) else err (key_error state)

-- the entry of `data_idx`
unfoldable pub index_of : Environment → Datum → String
unfolding guid_and_state
index_of env d = elim (guid_and_state env d) [ ok (guid, state) ↦ guid | err e ↦ "skipped" ]

abbrev pub cons_read : Result (String × String) → List (String × String) → List (String × String)
cons_read (ok p) ps = p ∷ ps
cons_read (err e) ps = ps

-- the guids with their states, of the data that could be read
unfoldable pub pairs : Environment → List Datum → List (String × String)
pairs env [] = []
pairs env (d ∷ ds) = cons_read (guid_and_state env d) (pairs env ds)

-- jobs.selects.get_job_guids_in_states
unfoldable pub in_states : List (String × String) → Job → Bool
in_states ps j = exists (λ p. str_eq p.0 j.job_guid && str_eq p.1 j.state) ps

unfoldable pub existing_guids : List (String × String) → List Job → List String
unfolding in_states
existing_guids ps jobs = map (λ j. j.job_guid) (keep (in_states ps) jobs)

abbrev pub is_new : Environment → List String → Datum → Bool
is_new env existing d = not (contains (index_of env d) existing)

-- Without a datum that can be read, no query is made, and nothing is passed on.
abbrev pub remove_with : Environment → List Datum → List Job → List (String × String) → List Datum
remove_with env data_ jobs [] = []
remove_with env data_ jobs (p ∷ ps) = keep (is_new env (existing_guids (p ∷ ps) jobs)) data_

unfoldable pub remove_existing_jobs : Environment → List Datum → List Job → List Datum
unfolding index_of existing_guids
remove_existing_jobs env data_ jobs = remove_with env data_ jobs (pairs env data_)
