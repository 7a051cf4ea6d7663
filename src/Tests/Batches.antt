-- ===== src/Tests/Batches.antt =====
-- The theorems on batches of jobs, and on reference data, at concrete inputs.
use treeherder_service.Prelude.{
  keep, if◌then◌else◌, ◌||◌, String, ◌≡◌, refl, true, false, none, some, [], ◌∷◌, exists, contains,
  str_eq, lookup, string_eq, text_length, ltb, take_text, insert, nat_eq,
}
use treeherder_service.Json.{Result, ok, err, key_error, type_error}
use treeherder_service.Guid.{get_guid_root, has_underscore}
use treeherder_service.Jobs.{
  Job, Table, active, has_guid, has_guid_in_state, create_job_data, get_job_ids_by_guid,
}
use treeherder_service.Jobs.Final.{job_at, Keeps}
use treeherder_service.Objectstore.{empty}
use treeherder_service.RefData.{Library, new}
use treeherder_service.RefData.Lookups.{
  build_platform, machine, signature, run_all, AllValid, run_all-AllValid, run_all-long_machine,
}
use treeherder_service.Ingest.{number, JobBlob, Python, JobRow, LogRow}
use treeherder_service.Ingest.Structs.{Structs, load_structs, long_of}
use treeherder_service.Ingest.Bounds.{Loads, load_structs_lem}
use treeherder_service.Ingest.Ids.{
  IdLookups, Ids, no_ids, set_all_ids, set_data_ids, JobIds, add_retries, put_ids, load_jobs,
  create_all, by_guid, guids_of,
}
use treeherder_service.Ingest.Retries.{is_known, add_retries_lem}
use treeherder_service.Ingest.Load.{
  Loaded, start, load_data, load_datum, on_job, finish, load_job_data, unchanged, log_tasks,
  job_results,
}
use treeherder_service.Ingest.Incoming.{
  Environment, json_blob, dictionary, Datum, pairs, guid_and_state, index_of, existing_guids,
  in_states, read_datum, remove_existing_jobs,
}
use treeherder_service.Ingest.Refines.{Reaches, load_job_data-Reaches}
use treeherder_service.Ingest.Existing.{indexed, remove_existing_jobs_lem}
use treeherder_service.Ingest.Unread.{readable, unread, remove_existing_jobs-unread}
use treeherder_service.Ingest.Logs.{log_tasks-pending}
use treeherder_service.Artifacts.{load_job_artifacts, gather_all, store_job_artifact}

abbrev library : Library
library = record { sha1_hex = λ s. "hash"; now = 100 }

run_all-AllValid_example : AllValid (
    run_all library
      (build_platform "linux" "Ubuntu" "x86"
        ∷ machine "m1" 5
        ∷ signature none "buildbot" "try" ("a" ∷ [])
        ∷ [])
      new)
run_all-AllValid_example = run_all-AllValid library (
    build_platform "linux" "Ubuntu" "x86"
    ∷ machine "m1" 5
    ∷ signature none "buildbot" "try" ("a" ∷ [])
    ∷ [])

abbrev long_name : String
long_name = "a-machine-with-a-name-of-more-than-fifty-characters-001"

is_long : ltb 50 (text_length long_name) ≡ true
unfolding text_length
is_long = refl

run_all-long_machine_example :
    contains long_name (run_all library (machine long_name 5 ∷ []) new).machines.names ≡ false
run_all-long_machine_example =
    run_all-long_machine library long_name (machine long_name 5 ∷ []) is_long

abbrev job : Job
job = record {
  id = 1;
  job_guid = "a1";
  signature = "hash";
  job_coalesced_to_guid = none;
  result_set_id = 5;
  build_platform_id = 1;
  machine_platform_id = 1;
  machine_id = 1;
  device_id = 1;
  option_collection_hash = "hash";
  job_type_id = 1;
  product_id = 1;
  failure_classification_id = 1;
  who = "me";
  reason = "push";
  result = "success";
  state = "completed";
  submit_timestamp = 1;
  start_timestamp = 2;
  end_timestamp = 3;
  pending_eta = 0;
  running_eta = 0;
  active_status = active;
}

abbrev table : Table
table = record { rows = job ∷ []; next_id = 2 }

abbrev ids : JobIds
ids = ("a1", job) ∷ []

retries_known : (is_known "a1_33932" ids || is_known (get_guid_root "a1_33932") ids) ≡ true
unfolding get_guid_root lookup
retries_known = refl

add_retries_example :
    (is_known "a1_33932" (add_retries ("b2" ∷ "a1_33932" ∷ []) ids) ≡ true)
    × (is_known (get_guid_root "a1_33932") (add_retries ("b2" ∷ "a1_33932" ∷ []) ids) ≡ true)
    × ((other : String) (j : Job)
        → lookup other ids ≡ some j
        → lookup other (add_retries ("b2" ∷ "a1_33932" ∷ []) ids) ≡ some j)
add_retries_example = add_retries_lem ("b2" ∷ "a1_33932" ∷ []) "a1_33932" ids refl retries_known

abbrev python : Python
python = record { long = λ s. none; is_blank = λ s. str_eq s ""; dumps = λ j. "{}" }

abbrev blob : JobBlob
blob = record {
  build_platform = none;
  machine_platform = none;
  option_collection = "opt" ∷ [];
  machine = some "m1";
  end_timestamp = some (number 9);
  device_name = none;
  name = some "xpcshell";
  job_symbol = some "X";
  group_name = none;
  group_symbol = none;
  product_name = some "firefox";
  job_guid = some "a1";
  who = some "me";
  reason = none;
  state = some "completed";
  result = some "success";
  build_system_type = none;
  reference_data_name = none;
  submit_timestamp = none;
  start_timestamp = none;
  log_references = record { name = none; url = some "http://log" } ∷ [];
  artifacts = [];
}

abbrev all_ones : IdLookups
all_ones = record {
  build_platforms = λ k. some 1;
  machine_platforms = λ k. some 1;
  machines = λ k. some 1;
  devices = λ k. some 1;
  job_types = λ k. some 1;
  products = λ k. some 1;
}

abbrev env : Environment
env = record {
  python = python;
  library = library;
  project = "try";
  read_host = λ t. t.rows;
  connection = 7;
  message = λ e. "error";
  from_json = λ s. err type_error;
  set_all_reference_data = λ r. all_ones;
  get_result_set_ids = λ hashes h. some (record { id = 5; push_timestamp = 6 });
  get_last_eta_by_signatures = λ ss. [];
}

abbrev datum : Datum
datum = record {
  id = some 3;
  source = dictionary (record { job = some blob; revision_hash = some "rev"; coalesced = [] });
}

abbrev broken : Datum
broken = record { id = some 4; source = json_blob "{" }

abbrev from_ok : {A : Type 0} → A → Result A → A
from_ok d (ok a) = a
from_ok d (err e) = d

abbrev no_loop : Structs
no_loop = (start empty).structs

abbrev loaded : String × Structs
loaded = from_ok ("", no_loop) (load_structs python library "try" blob "rev" no_loop)

blob_loads : load_structs python library "try" blob "rev" no_loop ≡ ok (take_text 50 "a1", loaded.1)
unfolding load_structs long_of
blob_loads = refl

load_structs_example : Loads no_loop blob (take_text 50 "a1", loaded.1)
load_structs_example =
    load_structs_lem python library "try" blob "rev" (take_text 50 "a1") no_loop loaded.1 blob_loads

abbrev pending_row : JobRow
pending_row = record {
  job_guid = "a1";
  signature = "hash";
  revision_hash = "rev";
  build_platform_key = "k";
  machine_platform_key = "k";
  machine = "m1";
  device_name = "unknown";
  option_collection_hash = "hash";
  job_type_key = "k";
  product = "firefox";
  who = "me";
  reason = "push";
  result = "unknown";
  state = "pending";
  submit_timestamp = 1;
  start_timestamp = 2;
  end_timestamp = 3;
  pending_avg = 0;
  running_avg = 0;
  root_guid = "a1";
}

abbrev with_ids : Ids
with_ids =
    from_ok no_ids (set_all_ids all_ones (env.get_result_set_ids []) [] (pending_row ∷ []) no_ids)

row_gets_ids :
    set_all_ids all_ones (env.get_result_set_ids []) [] (pending_row ∷ []) no_ids ≡ ok with_ids
unfolding set_all_ids set_data_ids
row_gets_ids = refl

abbrev fresh : Datum
fresh = record {
  id = some 3;
  source = dictionary (record {
    job = some (record blob { job_guid = some "c3"; log_references = [] });
    revision_hash = some "rev";
    coalesced = "a1" ∷ [];
  });
}

abbrev after_fresh : Loaded
after_fresh =
    from_ok (unchanged empty table []) (load_job_data env false (fresh ∷ []) empty table [])

fresh_is_loaded : load_job_data env false (fresh ∷ []) empty table [] ≡ ok after_fresh
unfolding load_job_data remove_existing_jobs pairs guid_and_state index_of existing_guids in_states
    load_data load_datum read_datum on_job load_structs long_of finish set_all_ids set_data_ids
    log_tasks load_job_artifacts gather_all store_job_artifact put_ids job_results load_jobs
    create_all by_guid add_retries lookup insert guids_of get_guid_root has_underscore take_text
    create_job_data get_job_ids_by_guid has_guid
fresh_is_loaded = refl

load_job_data-Reaches_example : Reaches table after_fresh.table × Keeps 1 job after_fresh.table
unfolding job_at
load_job_data-Reaches_example =
    load_job_data-Reaches env false (fresh ∷ []) empty table [] after_fresh 1 job fresh_is_loaded
      refl refl

remove_existing_jobs_example :
    exists (indexed env "a1") (remove_existing_jobs env (datum ∷ broken ∷ []) (job ∷ [])) ≡ false
unfolding guid_and_state has_guid_in_state
remove_existing_jobs_example =
    remove_existing_jobs_lem env (datum ∷ broken ∷ []) (job ∷ []) "a1" "completed" refl refl

-- a batch with a datum that can be read, beside one that cannot
remove_existing_jobs-unread_example :
    keep (unread env) (remove_existing_jobs env (datum ∷ broken ∷ []) (job ∷ [])) ≡ (
      if exists (readable env) (datum ∷ broken ∷ [])
      then keep (unread env) (datum ∷ broken ∷ [])
      else [])
remove_existing_jobs-unread_example =
    remove_existing_jobs-unread env (datum ∷ broken ∷ []) (job ∷ []) refl

abbrev log : LogRow
log = record { job_guid = "a1"; name = "unittest"; url = "http://log" }

log_tasks-pending_example :
    (k : String) × (log_tasks (log ∷ []) ids (job_results [] []) ≡ err (key_error k))
log_tasks-pending_example = log_tasks-pending (log ∷ []) ids [] "a1" refl refl
