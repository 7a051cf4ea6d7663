-- ===== src/Notes.antt =====
-- treeherder/model/derived/jobs.py: the notes on jobs, from which jobs take their failure
-- classification, and the bugs of jobs, with the statements of treeherder/model/sql/jobs.json.
pub mod Classified
use treeherder_service.Prelude.{
  ℕ, ◌+◌, ◌≤◌, String, ◌≡◌, Bool, true, false, not, ◌&&◌, ◌||◌, Option, none, some, List, [], ◌∷◌,
  ◌++◌, map, keep, exists, ◌==◌, if◌then◌else◌, str_eq, All,
}
use treeherder_service.Json.{
  Result, ok, err, integrity_error, job_data_integrity_error, index_error, ◌>>=◌,
}

-- a row of `job`, by the columns that matter here; the classification may be NULL
pub record Job : Type 0 where
  pub id : ℕ
  pub state : String
  pub failure_classification_id : Option ℕ

pub record Note : Type 0 where
  pub id : ℕ
  pub job_id : ℕ
  pub failure_classification_id : Option ℕ
  pub who : String
  pub note : String
  pub note_timestamp : ℕ

pub record BugJob : Type 0 where
  pub job_id : ℕ
  pub bug_id : ℕ
  pub type : String
  pub submit_timestamp : ℕ
  pub who : String

pub record Db : Type 0 where
  pub jobs : List Job
  pub notes : List Note
  pub next_note_id : ℕ
  pub bug_job_map : List BugJob

-- `ORDER BY note_timestamp DESC LIMIT 0,1`: MySQL chooses among the newest notes
pub record Newest : Type 0 where
  pub first : List Note → Option Note
  pub first_of_none : first [] ≡ none
  pub first_newest :
      (n : Note) (ns : List Note)
      → (m : Note) × (first (n ∷ ns) ≡ some m)
        × All (λ x. x.note_timestamp ≤ m.note_timestamp) (n ∷ ns)

abbrev pub is_job : ℕ → Job → Bool
is_job id j = j.id == id

abbrev pub is_on : ℕ → Note → Bool
is_on job_id n = n.job_id == job_id

-- `IF(failure_classification_id IS NOT NULL, failure_classification_id, 1)`, of the row that the
-- subquery has, if it has one: otherwise the subquery is NULL
abbrev pub or_one : Option ℕ → ℕ
or_one none = 1
or_one (some c) = c

abbrev pub classification_of : Option Note → Option ℕ
classification_of none = none
classification_of (some n) = some (or_one n.failure_classification_id)

-- jobs.updates.update_last_job_classification
unfoldable pub classify : Newest → List Note → ℕ → Job → Job
classify newest notes id j =
    if is_job id j
    then record j {
      failure_classification_id = classification_of (newest.first (keep (is_on j.id) notes));
    }
    else j

unfoldable pub update_last_job_classification : Newest → ℕ → Db → Db
unfolding classify
update_last_job_classification newest job_id db = record db {
  jobs = map (classify newest db.notes job_id) db.jobs;
}

-- the tasks that pass notes and bugs on to TBPL and to bugzilla
pub data Transfer : Type 0 where
  build_star_note : ℕ → String → ℕ → String → Transfer
  build_star_bug : ℕ → String → ℕ → Transfer
  star_comment : ℕ → ℕ → ℕ → String → Transfer
  bug_comment : ℕ → ℕ → Transfer

-- TBPL_BUGS_TRANSFER_ENABLED, and the build system of the project
pub record Config : Type 0 where
  pub transfer_enabled : Bool
  pub build_system_type : String

unfoldable pub get_job : ℕ → List Job → Option Job
get_job id [] = none
get_job id (j ∷ js) = if is_job id j then some j else get_job id js

-- `self.get_job(job_id)[0]`, and the tasks if the job is completed
unfoldable pub transfers_of : Config → Option Job → List Transfer → Result (List Transfer)
transfers_of c none ts = err index_error
transfers_of c (some j) ts =
    ok (if str_eq j.state "completed" && str_eq c.build_system_type "buildbot" then ts else [])

unfoldable pub transfer : Config → ℕ → List Transfer → List Job → Result (List Transfer)
unfolding transfers_of get_job
transfer c id ts jobs = if c.transfer_enabled then transfers_of c (get_job id jobs) ts else ok []

-- jobs.inserts.insert_note, whose job has to be there
unfoldable pub insert_note : ℕ → ℕ → String → String → ℕ → Db → Result Db
insert_note job_id classification who note now db =
    if exists (is_job job_id) db.jobs
    then ok (record db {
      notes =
          db.notes
          ++ (record {
            id = db.next_note_id;
            job_id = job_id;
            failure_classification_id = some classification;
            who = who;
            note = note;
            note_timestamp = now;
          })
            ∷ [];
      next_note_id = db.next_note_id + 1;
    })
    else err integrity_error

-- insert_job_note: the tables, and the tasks that are started
unfoldable pub insert_job_note :
    Newest → Config → ℕ → ℕ → String → String → ℕ → Db → Result (Db × List Transfer)
unfolding insert_note update_last_job_classification transfer
insert_job_note newest c job_id classification who note now db = do
  after ← insert_note job_id classification who note now db
  let classified = update_last_job_classification newest job_id after
  tasks ← transfer c job_id (build_star_note job_id who classification note ∷ []) classified.jobs
  ok (classified, tasks)

-- delete_job_note; the statement of the deletion looks at the note's id only
unfoldable pub delete_job_note : Newest → ℕ → ℕ → Db → Db
unfolding update_last_job_classification
delete_job_note newest note_id job_id db =
    update_last_job_classification newest job_id
      (record db { notes = keep (λ n. not (n.id == note_id)) db.notes })

abbrev pub is_pair : ℕ → ℕ → BugJob → Bool
is_pair job_id bug_id b = b.job_id == job_id && b.bug_id == bug_id

-- insert_bug_job_map: a pair that is there, or a job that is not, breaks the integrity
unfoldable pub insert_bug_job_map :
    Config → ℕ → ℕ → String → ℕ → String → Db → Result (Db × List Transfer)
unfolding transfer
insert_bug_job_map c job_id bug_id type time who db =
    if exists (is_pair job_id bug_id) db.bug_job_map || not (exists (is_job job_id) db.jobs)
    then err job_data_integrity_error
    else (do
      tasks ←
          transfer c job_id
            (star_comment job_id bug_id time who
              ∷ build_star_bug job_id who bug_id
              ∷ bug_comment job_id bug_id
              ∷ [])
            db.jobs
      ok (
        record db {
          bug_job_map =
              db.bug_job_map
              ++ (record {
                job_id = job_id;
                bug_id = bug_id;
                type = type;
                submit_timestamp = time;
                who = who;
              })
                ∷ [];
        },
        tasks,
      ))

unfoldable pub delete_bug_job_map : ℕ → ℕ → Db → Db
delete_bug_job_map job_id bug_id db = record db {
  bug_job_map = keep (λ b. not (is_pair job_id bug_id b)) db.bug_job_map;
}
