-- ===== src/Jobs.antt =====
-- The `job` table of treeherder/model/derived/jobs.py, with the statements of
-- treeherder/model/sql/jobs.json that its methods run. Statements run one after the other on the
-- list of rows, which stand in the order of their ids.
pub mod Ops
pub mod Final
pub mod Cancel
use treeherder_service.Prelude.{
  ℕ, ◌+◌, String, Bool, true, false, not, ◌&&◌, ◌||◌, Option, none, some, List, [], ◌∷◌, ◌++◌, map,
  ◌==◌, str_eq, if◌then◌else◌, keep, exists, contains, string_eq, nat_eq,
}

pub data ActiveStatus : Type 0 where
  active onhold deleted : ActiveStatus

pub record Job : Type 0 where
  pub id : ℕ
  pub job_guid : String
  pub signature : String
  pub job_coalesced_to_guid : Option String
  pub result_set_id : ℕ
  pub build_platform_id : ℕ
  pub machine_platform_id : ℕ
  pub machine_id : ℕ
  pub device_id : ℕ
  pub option_collection_hash : String
  pub job_type_id : ℕ
  pub product_id : ℕ
  pub failure_classification_id : ℕ
  pub who : String
  pub reason : String
  pub result : String
  pub state : String
  pub submit_timestamp : ℕ
  pub start_timestamp : ℕ
  pub end_timestamp : ℕ
  pub pending_eta : ℕ
  pub running_eta : ℕ
  pub active_status : ActiveStatus

pub record Table : Type 0 where
  pub rows : List Job
  pub next_id : ℕ

abbrev pub empty : Table
empty = record { rows = []; next_id = 1 }

-- a row of `job_placeholders` with its ids put in
pub record Insert : Type 0 where
  pub job_guid : String
  pub signature : String
  pub job_coalesced_to_guid : Option String
  pub result_set_id : ℕ
  pub build_platform_id : ℕ
  pub machine_platform_id : ℕ
  pub machine_id : ℕ
  pub device_id : ℕ
  pub option_collection_hash : String
  pub job_type_id : ℕ
  pub product_id : ℕ
  pub who : String
  pub reason : String
  pub result : String
  pub state : String
  pub submit_timestamp : ℕ
  pub start_timestamp : ℕ
  pub end_timestamp : ℕ
  pub pending_avg : ℕ
  pub running_avg : ℕ
  pub root_guid : String

-- a row of `job_update_placeholders` with the job's id in the last place
pub record Update : Type 0 where
  pub job_guid : String
  pub job_coalesced_to_guid : Option String
  pub result_set_id : ℕ
  pub machine_id : ℕ
  pub option_collection_hash : String
  pub job_type_id : ℕ
  pub product_id : ℕ
  pub who : String
  pub reason : String
  pub result : String
  pub state : String
  pub start_timestamp : ℕ
  pub end_timestamp : ℕ
  pub id : ℕ

abbrev pub is_completed : Job → Bool
is_completed j = str_eq j.state "completed"

unfoldable pub has_guid : String → List Job → Bool
has_guid guid = exists (λ j. str_eq j.job_guid guid)

-- the inserted row: classification 1 and status 'active' are the columns' defaults
abbrev pub new_job : ℕ → Insert → Job
new_job id p = record {
  id = id;
  job_guid = p.job_guid;
  signature = p.signature;
  job_coalesced_to_guid = p.job_coalesced_to_guid;
  result_set_id = p.result_set_id;
  build_platform_id = p.build_platform_id;
  machine_platform_id = p.machine_platform_id;
  machine_id = p.machine_id;
  device_id = p.device_id;
  option_collection_hash = p.option_collection_hash;
  job_type_id = p.job_type_id;
  product_id = p.product_id;
  failure_classification_id = 1;
  who = p.who;
  reason = p.reason;
  result = p.result;
  state = p.state;
  submit_timestamp = p.submit_timestamp;
  start_timestamp = p.start_timestamp;
  end_timestamp = p.end_timestamp;
  pending_eta = p.pending_avg;
  running_eta = p.running_avg;
  active_status = active;
}

-- jobs.inserts.create_job_data: nothing is inserted where the guid or its root is known
unfoldable pub create_job_data : Insert → Table → Table
create_job_data p t =
    if has_guid p.job_guid t.rows || has_guid p.root_guid t.rows
    then t
    else record { rows = t.rows ++ new_job t.next_id p ∷ []; next_id = t.next_id + 1 }

-- jobs.updates.update_job_data, with the test of its WHERE clause
abbrev pub takes_update : Update → Job → Bool
takes_update u j = not (is_completed j) && not (str_eq u.state "pending") && j.id == u.id

abbrev pub updated : Update → Job → Job
updated u j = record j {
  job_guid = u.job_guid;
  job_coalesced_to_guid = u.job_coalesced_to_guid;
  result_set_id = u.result_set_id;
  machine_id = u.machine_id;
  option_collection_hash = u.option_collection_hash;
  job_type_id = u.job_type_id;
  product_id = u.product_id;
  who = u.who;
  reason = u.reason;
  result = u.result;
  state = u.state;
  start_timestamp = u.start_timestamp;
  end_timestamp = u.end_timestamp;
}

pub update_job : Update → Job → Job
update_job u j = if takes_update u j then updated u j else j

pub update_job_data : Update → Table → Table
update_job_data u t = record t { rows = map (update_job u) t.rows }

abbrev pub usercancel : Job → Job
usercancel j = record j { state = "completed"; result = "usercancel" }

-- jobs.updates.cancel_all
pub cancel_in_result_set : ℕ → Job → Job
cancel_in_result_set rs j =
    if j.result_set_id == rs && not (is_completed j) then usercancel j else j

-- jobs.selects.get_incomplete_job_guids
pub get_incomplete_job_guids : ℕ → Table → List String
get_incomplete_job_guids rs t =
    map (λ j. j.job_guid) (keep (λ j. not (is_completed j) && j.result_set_id == rs) t.rows)

-- `cancel_all_resultset_jobs`: the guids that are published as 'processed', and the table
pub cancel_all_resultset_jobs : ℕ → Table → List String × Table
unfolding cancel_in_result_set get_incomplete_job_guids
cancel_all_resultset_jobs rs t =
    (get_incomplete_job_guids rs t, record t { rows = map (cancel_in_result_set rs) t.rows })

-- jobs.updates.cancel_job, in `cancel_job`
pub cancel_by_guid : String → Job → Job
cancel_by_guid guid j = if str_eq j.job_guid guid && not (is_completed j) then usercancel j else j

pub cancel_job : String → Table → List String × Table
cancel_job guid t = (guid ∷ [], record t { rows = map (cancel_by_guid guid) t.rows })

-- jobs.updates.set_state, in `set_state`
pub set_job_state : ℕ → String → Job → Job
set_job_state id state j =
    if j.id == id && not (is_completed j) then record j { state = state } else j

pub set_state : ℕ → String → Table → Table
set_state id state t = record t { rows = map (set_job_state id state) t.rows }

-- jobs.updates.update_coalesced_guids
pub coalesce_job : String → String → Job → Job
coalesce_job to guid j =
    if str_eq j.job_guid guid then record j { job_coalesced_to_guid = some to } else j

pub update_coalesced_guids : String → String → Table → Table
update_coalesced_guids to guid t = record t { rows = map (coalesce_job to guid) t.rows }

-- jobs.deletes.cycle_job
pub cycle_job : List ℕ → Table → Table
cycle_job ids t = record t { rows = keep (λ j. not (contains j.id ids)) t.rows }

abbrev pub is_active : Job → Bool
is_active j = elim j.active_status [ active ↦ true | onhold ↦ false | deleted ↦ false ]

-- jobs.selects.get_job_ids_by_guids: the rows by guid; where a guid stands twice, the later row
-- takes the key of the dictionary
unfoldable pub get_job_ids_by_guid : List String → List Job → List Job
get_job_ids_by_guid guids = keep (λ j. is_active j && contains j.job_guid guids)

-- jobs.selects.get_job_guids_in_states
unfoldable pub has_guid_in_state : String → String → List Job → Bool
has_guid_in_state state guid = exists (λ j. str_eq j.state state && str_eq j.job_guid guid)
