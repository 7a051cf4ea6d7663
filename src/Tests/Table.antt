-- ===== src/Tests/Table.antt =====
-- The theorems on the job table, on the removal of old data and on query filters, at concrete inputs.
use Prim.{tt}
use treeherder_service.Prelude.{
  ℕ, ◌<◌, ◌≡◌, ◌≢◌, refl, false, not, none, some, [], ◌∷◌, arith, length, keep, All, contains,
  string_eq, nat_eq,
}
use treeherder_service.Json.{ok}
use treeherder_service.Jobs.{
  Job, Table, Update, active, cancel_all_resultset_jobs, get_incomplete_job_guids,
}
use treeherder_service.Jobs.Ops.{update, change_state, cycle, run_all}
use treeherder_service.Jobs.Final.{job_at, Keeps, run_all-completed}
use treeherder_service.Jobs.Cancel.{cancelled_for_good, cancel_all_resultset_jobs_lem}
use treeherder_service.Cycle.{Db, get_result_sets_to_cycle, get_jobs_to_cycle}
use treeherder_service.Cycle.Deletes.{
  expired, job_ids, after, cycle_data-jobs, cycle_data-result_set,
}
use treeherder_service.Query.{one, many, Conditions, process_conditions, Clause}
use treeherder_service.Query.Placeholders.{IsPlain, percents, process_conditions_lem}

abbrev running_job : Job
running_job = record {
  id = 1;
  job_guid = "a1";
  signature = "sig";
  job_coalesced_to_guid = none;
  result_set_id = 5;
  build_platform_id = 1;
  machine_platform_id = 1;
  machine_id = 1;
  device_id = 1;
  option_collection_hash = "opt";
  job_type_id = 1;
  product_id = 1;
  failure_classification_id = 1;
  who = "me";
  reason = "push";
  result = "unknown";
  state = "running";
  submit_timestamp = 1;
  start_timestamp = 2;
  end_timestamp = 0;
  pending_eta = 0;
  running_eta = 0;
  active_status = active;
}

abbrev done_job : Job
done_job = record running_job { id = 2; job_guid = "b2"; state = "completed"; result = "success" }

abbrev table : Table
table = record { rows = running_job ∷ done_job ∷ []; next_id = 3 }

abbrev report : Update
report = record {
  job_guid = "a1";
  job_coalesced_to_guid = none;
  result_set_id = 5;
  machine_id = 1;
  option_collection_hash = "opt";
  job_type_id = 1;
  product_id = 1;
  who = "me";
  reason = "push";
  result = "success";
  state = "completed";
  start_timestamp = 2;
  end_timestamp = 9;
  id = 1;
}

run_all-completed_example : Keeps 2 done_job (
    run_all
      (update (record report { id = 2 }) ∷ change_state 2 "running" ∷ cycle (1 ∷ []) ∷ [])
      table)
unfolding job_at
run_all-completed_example =
    run_all-completed
      (update (record report { id = 2 }) ∷ change_state 2 "running" ∷ cycle (1 ∷ []) ∷ []) table 2
      done_job refl refl refl

cancelled_for_good_example :
    (k : Job) × (job_at 1 (run_all (update report ∷ []) (cancel_all_resultset_jobs 5 table).1).rows
      ≡ some k)
    × (k.state ≡ "completed")
    × (k.result ≡ "usercancel")
unfolding job_at
cancelled_for_good_example =
    cancelled_for_good (update report ∷ []) 5 1 table running_job refl refl refl refl

cancel_all_resultset_jobs_example :
    (get_incomplete_job_guids 5 (cancel_all_resultset_jobs 5 table).1 ≡ [])
    × ((qs : ℕ)
        → qs ≢ 5
        → get_incomplete_job_guids qs (cancel_all_resultset_jobs 5 table).1
          ≡ get_incomplete_job_guids qs table)
cancel_all_resultset_jobs_example = cancel_all_resultset_jobs_lem 5 table

abbrev old : Db
old = record {
  result_set =
      record { id = 1; push_timestamp = 1 } ∷ record { id = 2; push_timestamp = 19999999 } ∷ [];
  revision = 1 ∷ 2 ∷ [];
  revision_map = record { revision_id = 1; result_set_id = 1 } ∷ [];
  job = record { id = 2; job_guid = "a1"; result_set_id = 1 } ∷ [];
  job_artifact = 2 ∷ [];
  job_log_url = [];
  job_note = [];
  bug_job_map = 2 ∷ [];
  objectstore = "a1" ∷ [];
}

length-expired : 0 < length (expired 20000000 old)
unfolding get_result_sets_to_cycle
length-expired = omega arith

cycle_data-jobs_example :
    (get_jobs_to_cycle (expired 20000000 old) (after 20000000 old) ≡ [])
    × All (λ j. contains j (job_ids 20000000 old) ≡ false) (after 20000000 old).job_artifact
    × All (λ j. contains j (job_ids 20000000 old) ≡ false) (after 20000000 old).job_log_url
    × All (λ j. contains j (job_ids 20000000 old) ≡ false) (after 20000000 old).job_note
    × All (λ j. contains j (job_ids 20000000 old) ≡ false) (after 20000000 old).bug_job_map
cycle_data-jobs_example = cycle_data-jobs 20000000 old length-expired

cycle_data-result_set_example :
    ((after 20000000 old).result_set
      ≡ keep (λ r. not (contains r.id (job_ids 20000000 old))) old.result_set)
    × ((after 20000000 old).revision
        ≡ keep (λ r. not (contains r (job_ids 20000000 old))) old.revision)
    × ((after 20000000 old).revision_map
        ≡ keep (λ m. not (contains m.result_set_id (job_ids 20000000 old))) old.revision_map)
cycle_data-result_set_example = cycle_data-result_set 20000000 old length-expired

abbrev filter : Conditions
filter =
    ("result_set_id", ("=", one "5") ∷ [])
    ∷ ("state", ("IN", many ("pending" ∷ "running" ∷ [])) ∷ [])
    ∷ []

IsPlain-texts : (IsPlain "j.result_set_id") × (IsPlain "=") × (IsPlain "IN")
unfolding percents
IsPlain-texts = (refl, refl, refl)

process_conditions_example :
    (clause : Clause) × (process_conditions
        (some (("result_set_id", "j.result_set_id") ∷ []))
        filter
      ≡ ok clause)
    × (percents clause.0 ≡ length clause.1)
process_conditions_example =
    process_conditions_lem (("result_set_id", "j.result_set_id") ∷ []) filter (IsPlain-texts.0, tt)
      ((IsPlain-texts.1, tt), ((IsPlain-texts.2, tt), tt))
