-- ===== src/Ingest/Load.antt =====
-- `load_job_data` of treeherder/model/derived/jobs.py: a batch of job
-- data on its way into the `job` table. An exception that leaves the method is the error alone:
-- what was written before it is not modelled.
use treeherder_service.Prelude.{
  ℕ, String, Bool, Option, none, some, List, [], ◌∷◌, ◌++◌, map, str_eq, if◌then◌else◌, lookup,
  string_eq,
}
use treeherder_service.Json.{Result, ok, err, ◌>>=◌, PyError}
use treeherder_service.Jobs.{Table, Update, update_job_data, update_coalesced_guids}
use treeherder_service.Objectstore.{Store, mark_objects_complete, mark_object_error}
use treeherder_service.RefData.{new}
use treeherder_service.Ingest.{JobBlob, LogRow}
use treeherder_service.Artifacts.{Row, placeholder, load_job_artifacts}
use treeherder_service.Ingest.Structs.{Structs, load_structs}
use treeherder_service.Ingest.Ids.{
  eta_lookup, UpdateRow, no_ids, set_all_ids, JobIds, load_jobs, add_retries, put_ids, item,
}
use treeherder_service.Ingest.Incoming.{Datum, Environment, read_datum, remove_existing_jobs}

-- the state of the loop over the data
pub record Loop : Type 0 where
  pub structs : Structs
  pub objects : List (String × ℕ)
  pub coalesced : List (String × String)
  pub store : Store

abbrev pub start : Store → Loop
start store = record {
  structs = record {
    unique_revision_hashes = [];
    job_placeholders = [];
    log_placeholders = [];
    artifact_placeholders = [];
    retry_job_guids = [];
    refdata = new;
  };
  objects = [];
  coalesced = [];
  store = store;
}

abbrev pub error_text : Environment → PyError → String
error_text env e = env.message e

-- A datum that cannot be read: its row is marked, and the error is raised only where asked for.
unfoldable pub on_error : Environment → Bool → Option ℕ → PyError → Loop → Result Loop
on_error env raise_errors id e loop =
    if raise_errors
    then err e
    else ok (elim id [
      | none ↦ loop
      | some i ↦ record loop {
        store = mark_object_error env.connection i (error_text env e) loop.store;
      }
    ])

abbrev pub completed_object : String → Option ℕ → List (String × ℕ)
completed_object revision_hash none = []
completed_object revision_hash (some id) = (revision_hash, id) ∷ []

abbrev pub coalesced_to : String → List String → List (String × String)
coalesced_to job_guid guids = map (λ g. (job_guid, g)) guids

unfoldable pub on_job : Environment → Option ℕ → JobBlob × String × List String → Loop → Result Loop
on_job env id (job, revision_hash, coalesced) loop =
    load_structs env.python env.library env.project job revision_hash loop.structs >>= λ r.
    ok (record {
      structs = r.1;
      objects = loop.objects ++ completed_object revision_hash id;
      coalesced = loop.coalesced ++ coalesced_to r.0 coalesced;
      store = loop.store;
    })

unfoldable pub load_datum : Environment → Bool → Datum → Loop → Result Loop
unfolding read_datum on_error on_job
load_datum env raise_errors d loop = elim (read_datum env d.source) [
  | err e ↦ on_error env raise_errors d.id e loop
  | ok read ↦ on_job env d.id read loop
]

unfoldable pub load_data : Environment → Bool → List Datum → Loop → Result Loop
unfolding load_datum
load_data env raise_errors [] loop = ok loop
load_data env raise_errors (d ∷ ds) loop =
    load_datum env raise_errors d loop >>= λ loop'. load_data env raise_errors ds loop'

unfoldable pub update_all : List Update → Table → Table
update_all [] t = t
update_all (u ∷ us) t = update_all us (update_job_data u t)

unfoldable pub coalesce_all : List (String × String) → Table → Table
coalesce_all [] t = t
coalesce_all ((to, guid) ∷ ps) t = coalesce_all ps (update_coalesced_guids to guid t)

-- `_load_log_urls` up to its statements: the task for each log reference
pub record LogTask : Type 0 where
  pub job_id : ℕ
  pub job_guid : String
  pub log_url : String
  pub result_set_id : ℕ
  pub routing_key : String

unfoldable pub log_tasks : List LogRow → JobIds → List (String × String) → Result (List LogTask)
log_tasks [] ids results = ok []
log_tasks (log ∷ logs) ids results = do
  job ← item log.job_guid (lookup log.job_guid ids)
  result ← item log.job_guid (lookup log.job_guid results)
  rest ← log_tasks logs ids results
  ok (
      record {
        job_id = job.id;
        job_guid = log.job_guid;
        log_url = log.url;
        result_set_id = job.result_set_id;
        routing_key = if str_eq result "success" then "parse_log.success" else "parse_log.failures";
      }
      ∷ rest)

-- `dict((el[0], el[9]) for el in job_update_placeholders)`, the later entry first
unfoldable pub job_results : List UpdateRow → List (String × String) → List (String × String)
job_results [] results = results
job_results (u ∷ us) results = job_results us ((u.row.job_guid, u.row.result) ∷ results)

pub record Loaded : Type 0 where
  pub table : Table
  pub store : Store
  pub job_ids : JobIds
  pub tasks : List LogTask
  pub artifacts : List Row

-- the statements behind the loop
unfoldable pub finish : Environment → Loop → Table → List Row → Result Loaded
unfolding update_all coalesce_all log_tasks job_results
finish env loop t artifacts =
    let st = loop.structs in
    let lookups = env.set_all_reference_data st.refdata in
    let etas =
      eta_lookup (env.get_last_eta_by_signatures (map (λ p. p.0) st.refdata.signatures)) [] in
    let result_sets = env.get_result_set_ids st.unique_revision_hashes in
    set_all_ids lookups result_sets etas st.job_placeholders no_ids >>= λ ids.
    let (known, t1) = load_jobs env.read_host ids.inserts ids.job_guid_list t in
    let job_ids = add_retries st.retry_job_guids known in
    log_tasks st.log_placeholders job_ids (job_results ids.updates []) >>= λ tasks.
    load_job_artifacts (map placeholder st.artifact_placeholders) job_ids artifacts >>= λ stored.
    put_ids ids.updates job_ids >>= λ updates. ok (record {
      table = coalesce_all loop.coalesced (update_all updates t1);
      store = mark_objects_complete env.connection loop.objects loop.store;
      job_ids = job_ids;
      tasks = tasks;
      artifacts = stored.0;
    })

abbrev pub unchanged : Store → Table → List Row → Loaded
unchanged store t artifacts = record {
  table = t;
  store = store;
  job_ids = [];
  tasks = [];
  artifacts = artifacts;
}

abbrev pub load_new : Environment → Bool → List Datum → Store → Table → List Row → Result Loaded
load_new env raise_errors [] store t artifacts = ok (unchanged store t artifacts)
load_new env raise_errors (d ∷ ds) store t artifacts =
    load_data env raise_errors (d ∷ ds) (start store) >>= λ loop. finish env loop t artifacts

unfoldable pub load_job_data :
    Environment → Bool → List Datum → Store → Table → List Row → Result Loaded
unfolding remove_existing_jobs load_data finish
load_job_data env raise_errors data_ store t artifacts =
    load_new env raise_errors (remove_existing_jobs env data_ (env.read_host t)) store t artifacts
