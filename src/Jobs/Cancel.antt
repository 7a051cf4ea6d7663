-- ===== src/Jobs/Cancel.antt =====
-- The cancellation of a result set's jobs.
use treeherder_service.Prelude.{
  ℕ, ◌≡◌, ◌≢◌, refl, ap, ◌∙◌, Bool, false, not, ◌&&◌, some, List, [], ◌∷◌, map, arith, Bool-cases,
  inl, inr, ◌==◌, keep, exists,
}
use treeherder_service.Jobs.{
  Job, Table, is_completed, usercancel, cancel_in_result_set, cancel_all_resultset_jobs,
  get_incomplete_job_guids,
}
use treeherder_service.Jobs.Ops.{Op, deletes, run_all}
use treeherder_service.Jobs.Final.{job_at, job_at-map, cancel_in_result_set-id, run_all-completed}

abbrev incomplete_in : ℕ → Job → Bool
incomplete_in rs j = not (is_completed j) && j.result_set_id == rs

incomplete_in-cancel : (rs : ℕ) (j : Job) → incomplete_in rs (cancel_in_result_set rs j) ≡ false
unfolding cancel_in_result_set
incomplete_in-cancel rs j = elim (Bool-cases (j.result_set_id == rs && not (is_completed j))) [
  | inl e ↦ rw e refl
  | inr e ↦ rw e (ground arith)
]

keep-cancel :
    (rs : ℕ) (js : List Job) → keep (incomplete_in rs) (map (cancel_in_result_set rs) js) ≡ []
keep-cancel rs [] = refl
keep-cancel rs (j ∷ js) = rw (incomplete_in-cancel rs j, keep-cancel rs js) refl

keep-cancel_ne :
    (rs qs : ℕ) (js : List Job)
    → qs ≢ rs
    → map (λ j. j.job_guid) (keep (incomplete_in qs) (map (cancel_in_result_set rs) js))
      ≡ map (λ j. j.job_guid) (keep (incomplete_in qs) js)
unfolding cancel_in_result_set
keep-cancel_ne rs qs [] h = refl
keep-cancel_ne rs qs (j ∷ js) h = ground (arith, keep-cancel_ne rs qs js h)

-- Behind the cancellation of a result set, no job of it is pending or running, and the pending
-- and running jobs of every other result set are those that they were.
pub cancel_all_resultset_jobs_lem :
    (rs : ℕ) (t : Table)
    → (get_incomplete_job_guids rs (cancel_all_resultset_jobs rs t).1 ≡ [])
      × ((qs : ℕ)
          → qs ≢ rs
          → get_incomplete_job_guids qs (cancel_all_resultset_jobs rs t).1
            ≡ get_incomplete_job_guids qs t)
unfolding get_incomplete_job_guids cancel_all_resultset_jobs
cancel_all_resultset_jobs_lem rs t =
    (ap (map (λ j. j.job_guid)) (keep-cancel rs t.rows), λ qs h. keep-cancel_ne rs qs t.rows h)

-- A job of the result set that is not completed is, after the cancellation of the result set and any
-- later insertions, updates, cancellations, changes of state, coalescings and deletions of other jobs,
-- completed with the result usercancel.
pub cancelled_for_good :
    (ops : List Op) (rs id : ℕ) (t : Table) (j : Job)
    → exists (deletes id) ops ≡ false
    → job_at id t.rows ≡ some j
    → j.result_set_id ≡ rs
    → is_completed j ≡ false
    → (k : Job) × (job_at id (run_all ops (cancel_all_resultset_jobs rs t).1).rows ≡ some k)
      × (k.state ≡ "completed")
      × (k.result ≡ "usercancel")
unfolding cancel_all_resultset_jobs cancel_in_result_set
cancelled_for_good ops rs id t j n h e c =
    let found : job_at id (map (cancel_in_result_set rs) t.rows) ≡ some (usercancel j) =
      job_at-map (cancel_in_result_set rs) id t.rows j (cancel_in_result_set-id rs) h
      ∙ ap some (ground arith) in
    let (k, g, same) = run_all-completed ops _ id (usercancel j) n refl found in
    (k, g, ap (λ (i : Job). i.state) same, ap (λ (i : Job). i.result) same)
