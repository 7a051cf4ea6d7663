-- ===== src/Ingest/Ids.antt =====
-- `get_job_eta_times`, `_set_data_ids`, `_load_jobs` and the job id lookup of `load_job_data`, in
-- treeherder/model/derived/jobs.py.
use treeherder_service.Prelude.{
  ℕ, String, Option, none, some, List, [], ◌∷◌, ◌++◌, str_eq, if◌then◌else◌, lookup, insert,
  string_eq, nat_eq,
}
use treeherder_service.Json.{Result, ok, err, ◌>>=◌, key_error}
use treeherder_service.Guid.{get_guid_root}
use treeherder_service.Jobs.{Job, Table, Insert, Update, create_job_data, get_job_ids_by_guid}
use treeherder_service.Ingest.{JobRow}

-- `d[k]` on a lookup
abbrev pub item {ℓ} : {A : Type ℓ} → String → Option A → Result A
item k none = err (key_error k)
item k (some a) = ok a

-- what `set_all_reference_data` answers, by table
pub record IdLookups : Type 0 where
  pub build_platforms : String → Option ℕ
  pub machine_platforms : String → Option ℕ
  pub machines : String → Option ℕ
  pub devices : String → Option ℕ
  pub job_types : String → Option ℕ
  pub products : String → Option ℕ

pub record ResultSetId : Type 0 where
  pub id : ℕ
  pub push_timestamp : ℕ

-- a row of jobs.selects.get_last_eta_by_signatures
pub record EtaRow : Type 0 where
  pub signature : String
  pub state : String
  pub avg_sec : ℕ

abbrev pub Etas : Type 0
Etas = List (String × List (String × ℕ))

abbrev pub times_of : Option (List (String × ℕ)) → List (String × ℕ)
times_of none = []
times_of (some times) = times

unfoldable pub eta_lookup : List EtaRow → Etas → Etas
eta_lookup [] etas = etas
eta_lookup (row ∷ rows) etas = eta_lookup rows (
    insert row.signature (insert row.state row.avg_sec (times_of (lookup row.signature etas))) etas)

abbrev pub or_zero : Option ℕ → ℕ
or_zero none = 0
or_zero (some n) = n

-- `job_eta_times.get(signature, {}).get(state, 0)`
unfoldable pub eta_of : String → String → Etas → ℕ
eta_of signature state etas = or_zero (lookup state (times_of (lookup signature etas)))

-- a row of `job_update_placeholders`, whose last place is the root guid until the id is put in
pub record UpdateRow : Type 0 where
  pub row : Update
  pub root_guid : String

pub record Ids : Type 0 where
  pub inserts : List Insert
  pub job_guid_list : List String
  pub updates : List UpdateRow
  pub push_timestamps : List (ℕ × ℕ)

abbrev pub no_ids : Ids
no_ids = record { inserts = []; job_guid_list = []; updates = []; push_timestamps = [] }

-- the guid, and its root behind it where that is another
unfoldable pub guids_of : String → List String
guids_of guid =
    let root = get_guid_root guid in if str_eq guid root then guid ∷ [] else guid ∷ root ∷ []

abbrev update_row : JobRow → ResultSetId → ℕ → ℕ → ℕ → UpdateRow
update_row p rs machine_id job_type_id product_id = record {
  row = record {
    job_guid = p.job_guid;
    job_coalesced_to_guid = none;
    result_set_id = rs.id;
    machine_id = machine_id;
    option_collection_hash = p.option_collection_hash;
    job_type_id = job_type_id;
    product_id = product_id;
    who = p.who;
    reason = p.reason;
    result = p.result;
    state = p.state;
    start_timestamp = p.start_timestamp;
    end_timestamp = p.end_timestamp;
    id = 0;
  };
  root_guid = get_guid_root p.job_guid;
}

-- Pending jobs are inserted only, jobs of every other state also update the row that is there.
unfoldable pub set_data_ids :
    IdLookups → (String → Option ResultSetId) → Etas → JobRow → Ids → Result Ids
unfolding eta_of guids_of
set_data_ids l result_set_ids etas p s =
    item p.revision_hash (result_set_ids p.revision_hash) >>= λ rs.
    item p.build_platform_key (l.build_platforms p.build_platform_key) >>= λ build_platform_id.
    item p.machine_platform_key (l.machine_platforms p.machine_platform_key)
    >>= λ machine_platform_id. item p.machine (l.machines p.machine) >>= λ machine_id.
        item p.device_name (l.devices p.device_name) >>= λ device_id.
        item p.job_type_key (l.job_types p.job_type_key) >>= λ job_type_id.
        item p.product (l.products p.product) >>= λ product_id. ok (record {
          inserts =
              s.inserts
              ++ record {
                job_guid = p.job_guid;
                signature = p.signature;
                job_coalesced_to_guid = none;
                result_set_id = rs.id;
                build_platform_id = build_platform_id;
                machine_platform_id = machine_platform_id;
                machine_id = machine_id;
                device_id = device_id;
                option_collection_hash = p.option_collection_hash;
                job_type_id = job_type_id;
                product_id = product_id;
                who = p.who;
                reason = p.reason;
                result = p.result;
                state = p.state;
                submit_timestamp = p.submit_timestamp;
                start_timestamp = p.start_timestamp;
                end_timestamp = p.end_timestamp;
                pending_avg = eta_of p.signature "pending" etas;
                running_avg = eta_of p.signature "running" etas;
                root_guid = p.root_guid;
              }
                ∷ [];
          job_guid_list = s.job_guid_list ++ guids_of p.job_guid;
          updates =
              if str_eq p.state "pending"
              then s.updates
              else s.updates ++ update_row p rs machine_id job_type_id product_id ∷ [];
          push_timestamps = insert rs.id rs.push_timestamp s.push_timestamps;
        })

unfoldable pub set_all_ids :
    IdLookups → (String → Option ResultSetId) → Etas → List JobRow → Ids → Result Ids
unfolding set_data_ids
set_all_ids l result_set_ids etas [] s = ok s
set_all_ids l result_set_ids etas (p ∷ ps) s =
    set_data_ids l result_set_ids etas p s >>= λ s'. set_all_ids l result_set_ids etas ps s'

unfoldable pub create_all : List Insert → Table → Table
create_all [] t = t
create_all (p ∷ ps) t = create_all ps (create_job_data p t)

abbrev pub JobIds : Type 0
JobIds = List (String × Job)

-- the rows as a dictionary by guid: a later row takes the place of an earlier one
unfoldable pub by_guid : List Job → JobIds → JobIds
by_guid [] ids = ids
by_guid (j ∷ js) ids = by_guid js (insert j.job_guid j ids)

-- No statement runs where no placeholders are given. The ids are asked of `read_host`, which shows
-- some rows while the master has those of the table.
unfoldable pub load_jobs : (Table → List Job) → List Insert → List String → Table → JobIds × Table
unfolding create_all by_guid
load_jobs read_host [] guids t = ([], t)
load_jobs read_host (p ∷ ps) guids t =
    let t' = create_all (p ∷ ps) t in (by_guid (get_job_ids_by_guid guids (read_host t')) [], t')

-- by the job under the guid of a retry and the job under its root
abbrev pub retry_with : String → Option Job → Option Job → JobIds → JobIds
retry_with guid (some job) none ids = insert (get_guid_root guid) job ids
retry_with guid (some job) (some other) ids = ids
retry_with guid none (some job) ids = insert guid job ids
retry_with guid none none ids = ids

-- The job of one retry is made known under the guid and under its root, if it is known under one.
unfoldable pub add_retry : String → JobIds → JobIds
add_retry guid ids = retry_with guid (lookup guid ids) (lookup (get_guid_root guid) ids) ids

unfoldable pub add_retries : List String → JobIds → JobIds
unfolding add_retry
add_retries [] ids = ids
add_retries (guid ∷ guids) ids = add_retries guids (add_retry guid ids)

-- the root guids of the updates replaced by the ids of the jobs
unfoldable pub put_ids : List UpdateRow → JobIds → Result (List Update)
put_ids [] ids = ok []
put_ids (u ∷ us) ids = do
  job ← item (get_guid_root u.root_guid) (lookup (get_guid_root u.root_guid) ids)
  rest ← put_ids us ids
  ok (record (u.row) { id = job.id } ∷ rest)
