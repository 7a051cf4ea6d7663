-- ===== src/Cycle.antt =====
-- The removal of old data: `cycle_data` and `_execute_table_deletes` of
-- treeherder/model/derived/jobs.py, and the loop of the task `cycle_data` in
-- treeherder/model/tasks.py. Of each table the model has the columns that the deletions read.
pub mod Deletes
use treeherder_service.Prelude.{
  ℕ, zero, suc, ◌+◌, ◌-◌, String, Bool, true, false, not, ◌||◌, Option, none, some, List, [], ◌∷◌,
  map, ltb, ◌==◌, str_eq, if◌then◌else◌, keep, contains, length, take, lookup, insert, nat_eq,
  string_eq,
}

pub record ResultSet : Type 0 where
  pub id : ℕ
  pub push_timestamp : ℕ

pub record MapRow : Type 0 where
  pub revision_id : ℕ
  pub result_set_id : ℕ

pub record JobRow : Type 0 where
  pub id : ℕ
  pub job_guid : String
  pub result_set_id : ℕ

-- Of the four tables that hang on a job, the job's id of each row.
pub record Db : Type 0 where
  pub result_set : List ResultSet
  pub revision : List ℕ
  pub revision_map : List MapRow
  pub job : List JobRow
  pub job_artifact : List ℕ
  pub job_log_url : List ℕ
  pub job_note : List ℕ
  pub bug_job_map : List ℕ
  pub objectstore : List String

-- JOBS_CYCLE_TARGETS, in its order
pub data Target : Type 0 where
  cycle_job_artifact cycle_job_log_url cycle_job_note cycle_bug_job_map cycle_job : Target
  cycle_revision cycle_revision_map cycle_result_set : Target

abbrev pub jobs_cycle_targets : List Target
jobs_cycle_targets =
    cycle_job_artifact ∷ cycle_job_log_url ∷ cycle_job_note ∷ cycle_bug_job_map ∷ cycle_job
    ∷ cycle_revision ∷ cycle_revision_map ∷ cycle_result_set ∷ []

abbrev pub sql_name : Target → String
sql_name cycle_job_artifact = "jobs.deletes.cycle_job_artifact"
sql_name cycle_job_log_url = "jobs.deletes.cycle_job_log_url"
sql_name cycle_job_note = "jobs.deletes.cycle_job_note"
sql_name cycle_bug_job_map = "jobs.deletes.cycle_bug_job_map"
sql_name cycle_job = "jobs.deletes.cycle_job"
sql_name cycle_revision = "jobs.deletes.cycle_revision"
sql_name cycle_revision_map = "jobs.deletes.cycle_revision_map"
sql_name cycle_result_set = "jobs.deletes.cycle_result_set"

-- DATA_CYCLE_INTERVAL
abbrev pub data_cycle_interval : ℕ
data_cycle_interval = 15552000

-- jobs.selects.get_result_sets_to_cycle
unfoldable pub get_result_sets_to_cycle : ℕ → Db → List ℕ
get_result_sets_to_cycle min_date db =
    take 5000 (map (λ r. r.id) (keep (λ r. ltb r.push_timestamp min_date) db.result_set))

-- jobs.selects.get_revision_ids_to_cycle, get_jobs_to_cycle
pub get_revision_ids_to_cycle : List ℕ → Db → List ℕ
get_revision_ids_to_cycle ids db =
    map (λ m. m.revision_id) (keep (λ m. contains m.result_set_id ids) db.revision_map)

pub get_jobs_to_cycle : List ℕ → Db → List JobRow
get_jobs_to_cycle ids db = keep (λ j. contains j.result_set_id ids) db.job

-- the statements of a target, `… IN (ids)`
pub delete_from : Target → List ℕ → Db → Db
delete_from cycle_job_artifact ids db = record db {
  job_artifact = keep (λ j. not (contains j ids)) db.job_artifact;
}
delete_from cycle_job_log_url ids db = record db {
  job_log_url = keep (λ j. not (contains j ids)) db.job_log_url;
}
delete_from cycle_job_note ids db = record db {
  job_note = keep (λ j. not (contains j ids)) db.job_note;
}
delete_from cycle_bug_job_map ids db = record db {
  bug_job_map = keep (λ j. not (contains j ids)) db.bug_job_map;
}
delete_from cycle_job ids db = record db { job = keep (λ j. not (contains j.id ids)) db.job }
delete_from cycle_revision ids db = record db {
  revision = keep (λ r. not (contains r ids)) db.revision;
}
delete_from cycle_revision_map ids db = record db {
  revision_map = keep (λ m. not (contains m.result_set_id ids)) db.revision_map;
}
delete_from cycle_result_set ids db = record db {
  result_set = keep (λ r. not (contains r.id ids)) db.result_set;
}

-- the rows of the table that a target deletes from
abbrev pub size : Target → Db → ℕ
size cycle_job_artifact db = length db.job_artifact
size cycle_job_log_url db = length db.job_log_url
size cycle_job_note db = length db.job_note
size cycle_bug_job_map db = length db.bug_job_map
size cycle_job db = length db.job
size cycle_revision db = length db.revision
size cycle_revision_map db = length db.revision_map
size cycle_result_set db = length db.result_set

-- The `if`/`elif` ladder that chooses the placeholders of a target. It compares the full name of
-- the statement with its last word.
pub placeholders_of : Target → List ℕ → List ℕ → List ℕ → List ℕ
placeholders_of target rev_placeholders rs_placeholders job_id_placeholders =
    if str_eq (sql_name target) "cycle_revision"
    then rev_placeholders
    else if str_eq (sql_name target) "cycle_revision_map"
    then rs_placeholders
    else if str_eq (sql_name target) "cycle_result_set"
    then rs_placeholders
    else job_id_placeholders

-- `sql_targets`: the rows that a statement deleted last, without the entry for the total
abbrev pub Counts : Type 0
Counts = List (String × ℕ)

pub record Progress : Type 0 where
  pub db : Db
  pub counts : Counts
  pub total_count : ℕ

-- A statement runs at its first turn, and again only if it deleted something the last time.
abbrev pub is_due : String → Counts → Bool
is_due sql counts = elim (lookup sql counts) [ none ↦ true | some n ↦ ltb 0 n ]

-- one turn of the loop of `_execute_table_deletes`, with the deletion and the rows that it counts
pub execute_delete : String → ℕ → (Db → Db) → (Db → ℕ) → Progress → Progress
execute_delete sql placeholders delete rows p =
    if placeholders == 0
    then record p { counts = insert sql 0 p.counts }
    else if is_due sql p.counts
    then (let row_count = rows p.db - rows (delete p.db) in
        record {
          db = delete p.db;
          counts = insert sql row_count p.counts;
          total_count = p.total_count + row_count;
        })
    else p

-- the objectstore's one target
pub execute_os_delete : List String → Progress → Progress
unfolding execute_delete
execute_os_delete guids p =
    execute_delete "objectstore.deletes.cycle_objectstore" (length guids)
      (λ db. record db { objectstore = keep (λ g. not (contains g guids)) db.objectstore })
      (λ db. length db.objectstore) p

pub execute_jobs_deletes : List Target → List ℕ → List ℕ → List ℕ → Progress → Progress
unfolding execute_delete placeholders_of delete_from
execute_jobs_deletes [] revs rss jobs p = p
execute_jobs_deletes (t ∷ ts) revs rss jobs p =
    let ids = placeholders_of t revs rss jobs in
    execute_jobs_deletes ts revs rss jobs
      (execute_delete (sql_name t) (length ids) (delete_from t ids) (size t) p)

pub cycle_data : ℕ → Counts → Db → Progress
unfolding execute_os_delete execute_jobs_deletes get_result_sets_to_cycle get_revision_ids_to_cycle
    get_jobs_to_cycle
cycle_data now counts db =
    let rss = get_result_sets_to_cycle (now - data_cycle_interval) db in
    if length rss == 0
    then record { db = db; counts = counts; total_count = 0 }
    else (let revs = get_revision_ids_to_cycle rss db in
        let job_data = get_jobs_to_cycle rss db in
        execute_jobs_deletes jobs_cycle_targets revs rss (map (λ j. j.id) job_data) (
          execute_os_delete (map (λ j. j.job_guid) job_data)
            (record { db = db; counts = counts; total_count = 0 })))

-- the task: another pass as long as the last one deleted something, `max_iterations` at most
pub cycle_task : ℕ → ℕ → Counts → Db → Db
unfolding cycle_data
cycle_task zero now counts db = db
cycle_task (suc n) now counts db =
    let p = cycle_data now counts db in
    elim (p.total_count == 0) [ true ↦ p.db | false ↦ cycle_task n now p.counts p.db ]
