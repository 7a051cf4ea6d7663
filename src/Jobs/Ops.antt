-- ===== src/Jobs/Ops.antt =====
-- The statements on the `job` table as calls, and the runs of them.
use treeherder_service.Prelude.{ℕ, String, Bool, false, List, [], ◌∷◌, contains, nat_eq}
use treeherder_service.Jobs.{
  Table, Insert, Update, create_job_data, update_job_data, cancel_all_resultset_jobs, cancel_job,
  set_state, update_coalesced_guids, cycle_job,
}

pub data Op : Type 0 where
  create : Insert → Op
  update : Update → Op
  cancel_all : ℕ → Op
  cancel : String → Op
  change_state : ℕ → String → Op
  coalesce : String → String → Op
  cycle : List ℕ → Op

unfoldable pub run : Op → Table → Table
run (create p) t = create_job_data p t
run (update u) t = update_job_data u t
run (cancel_all rs) t = (cancel_all_resultset_jobs rs t).1
run (cancel guid) t = (cancel_job guid t).1
run (change_state id state) t = set_state id state t
run (coalesce to guid) t = update_coalesced_guids to guid t
run (cycle ids) t = cycle_job ids t

-- the statement is the deletion that cycle_data makes, and it deletes the job
abbrev pub deletes : ℕ → Op → Bool
deletes id (cycle ids) = contains id ids
deletes id _ = false

unfoldable pub run_all : List Op → Table → Table
unfolding run
run_all [] t = t
run_all (op ∷ ops) t = run_all ops (run op t)
