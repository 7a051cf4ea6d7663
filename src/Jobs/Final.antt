-- ===== src/Jobs/Final.antt =====
-- The end of a job: no statement takes a job out of the state 'completed'.
use treeherder_service.Prelude.{
  ℕ, String, ◌≡◌, refl, ap, ◌∙◌, ◌||◌, Option, none, some, List, [], ◌∷◌, ◌++◌, map, arith,
  Bool-cases, inl, inr, Bool, false, true, keep, exists, nat_eq, ◌==◌, str_eq, if◌then◌else◌,
}
use treeherder_service.Jobs.{
  Job, Table, Update, is_completed, has_guid, create_job_data, update_job, update_job_data,
  cancel_in_result_set, cancel_all_resultset_jobs, cancel_by_guid, cancel_job, set_job_state,
  set_state, coalesce_job, update_coalesced_guids, cycle_job,
}
use treeherder_service.Jobs.Ops.{
  Op, create, update, cancel_all, cancel, change_state, coalesce, cycle, deletes, run, run_all,
}

unfoldable pub job_at : ℕ → List Job → Option Job
job_at id [] = none
job_at id (j ∷ js) = if j.id == id then some j else job_at id js

-- Equal but for the guid that the job was coalesced to.
abbrev pub SameButCoalesced : Job → Job → Type 0
SameButCoalesced j k = k ≡ record j { job_coalesced_to_guid = k.job_coalesced_to_guid }

pub job_at-append :
    (id : ℕ) (js ks : List Job) (j : Job) → job_at id js ≡ some j → job_at id (js ++ ks) ≡ some j
unfolding job_at
job_at-append id [] ks j h = cc
job_at-append id (i ∷ js) ks j h = ground (arith, job_at-append id js ks j)

pub job_at-map :
    (f : Job → Job) (id : ℕ) (js : List Job) (j : Job)
    → ((i : Job) → (f i).id ≡ i.id)
    → job_at id js ≡ some j
    → job_at id (map f js) ≡ some (f j)
unfolding job_at
job_at-map f id [] j same h = cc
job_at-map f id (i ∷ js) j same h = ground (arith, same i, job_at-map f id js j same)

job_at-keep :
    (p : Job → Bool) (id : ℕ) (js : List Job) (j : Job)
    → ((i : Job) → i.id == id ≡ true → p i ≡ true)
    → job_at id js ≡ some j
    → job_at id (keep p js) ≡ some j
unfolding job_at
job_at-keep p id [] j spared h = cc
job_at-keep p id (i ∷ js) j spared h = elim (Bool-cases (i.id == id)) [
  | inl e ↦ rw (spared i e) (rw e (rw e at h))
  | inr e ↦ elim (Bool-cases (p i)) [
    | inl f ↦ rw f (rw e (job_at-keep p id js j spared (rw e at h)))
    | inr f ↦ rw f (job_at-keep p id js j spared (rw e at h))
  ]
]

-- the job of the table with the id, completed like `j`
abbrev pub Keeps : ℕ → Job → Table → Type 0
Keeps id j t = (k : Job) × (job_at id t.rows ≡ some k) × SameButCoalesced j k

pub update_job-id : (u : Update) (i : Job) → (update_job u i).id ≡ i.id
unfolding update_job
update_job-id u i = ground arith

pub cancel_in_result_set-id : (rs : ℕ) (i : Job) → (cancel_in_result_set rs i).id ≡ i.id
unfolding cancel_in_result_set
cancel_in_result_set-id rs i = ground arith

cancel_by_guid-id : (guid : String) (i : Job) → (cancel_by_guid guid i).id ≡ i.id
unfolding cancel_by_guid
cancel_by_guid-id guid i = ground arith

set_job_state-id : (k : ℕ) (state : String) (i : Job) → (set_job_state k state i).id ≡ i.id
unfolding set_job_state
set_job_state-id k state i = ground arith

coalesce_job-id : (to guid : String) (i : Job) → (coalesce_job to guid i).id ≡ i.id
unfolding coalesce_job
coalesce_job-id to guid i = ground arith

module _ (j : Job) (c : is_completed j ≡ true) where
  update_job-completed : (u : Update) → update_job u j ≡ j
  unfolding update_job
  update_job-completed u = rw c refl

  cancel_in_result_set-completed : (rs : ℕ) → cancel_in_result_set rs j ≡ j
  unfolding cancel_in_result_set
  cancel_in_result_set-completed rs = ground arith

  cancel_by_guid-completed : (guid : String) → cancel_by_guid guid j ≡ j
  unfolding cancel_by_guid
  cancel_by_guid-completed guid = ground arith

  set_job_state-completed : (i : ℕ) (state : String) → set_job_state i state j ≡ j
  unfolding set_job_state
  set_job_state-completed i state = ground arith

coalesce_job-SameButCoalesced :
    (to guid : String) (j : Job) → SameButCoalesced j (coalesce_job to guid j)
unfolding coalesce_job
coalesce_job-SameButCoalesced to guid j = elim (Bool-cases (str_eq j.job_guid guid)) [
  | inl e ↦ rw e refl
  | inr e ↦ rw e refl
]

Keeps-mapped :
    (f : Job → Job) (id : ℕ) (j : Job) (t : Table)
    → ((i : Job) → (f i).id ≡ i.id)
    → SameButCoalesced j (f j)
    → job_at id t.rows ≡ some j
    → Keeps id j (record t { rows = map f t.rows })
Keeps-mapped f id j t same k h = (f j, job_at-map f id t.rows j same h, k)

Keeps-fixed :
    (f : Job → Job) (id : ℕ) (j : Job) (t : Table)
    → ((i : Job) → (f i).id ≡ i.id)
    → f j ≡ j
    → job_at id t.rows ≡ some j
    → Keeps id j (record t { rows = map f t.rows })
Keeps-fixed f id j t same k h = (j, job_at-map f id t.rows j same h ∙ ap some k, refl)

run-completed :
    (op : Op) (t : Table) (id : ℕ) (j : Job)
    → deletes id op ≡ false
    → is_completed j ≡ true
    → job_at id t.rows ≡ some j
    → Keeps id j (run op t)
unfolding run cycle_job create_job_data update_job_data cancel_all_resultset_jobs cancel_job
    set_state update_coalesced_guids
run-completed (create p) t id j n c h =
    elim (Bool-cases (has_guid p.job_guid t.rows || has_guid p.root_guid t.rows)) [
      | inl e ↦ (j, rw e h, refl)
      | inr e ↦ (j, rw e (job_at-append id t.rows _ j h), refl)
    ]
run-completed (update u) t id j n c h =
    Keeps-fixed (update_job u) id j t (update_job-id u) (update_job-completed j c u) h
run-completed (cancel_all rs) t id j n c h =
    Keeps-fixed (cancel_in_result_set rs) id j t (cancel_in_result_set-id rs)
      (cancel_in_result_set-completed j c rs) h
run-completed (cancel guid) t id j n c h =
    Keeps-fixed (cancel_by_guid guid) id j t (cancel_by_guid-id guid)
      (cancel_by_guid-completed j c guid) h
run-completed (change_state i state) t id j n c h =
    Keeps-fixed (set_job_state i state) id j t (set_job_state-id i state)
      (set_job_state-completed j c i state) h
run-completed (coalesce to guid) t id j n c h =
    Keeps-mapped (coalesce_job to guid) id j t (coalesce_job-id to guid)
      (coalesce_job-SameButCoalesced to guid j) h
run-completed (cycle ids) t id j n c h =
    (j, job_at-keep _ id t.rows j (λ i e. ground (arith, e, n)) h, refl)

-- No sequence of insertions, updates, cancellations, changes of state, coalescings and deletions of
-- other jobs changes a completed job in anything but the guid that it was coalesced to.
pub run_all-completed :
    (ops : List Op) (t : Table) (id : ℕ) (j : Job)
    → exists (deletes id) ops ≡ false
    → is_completed j ≡ true
    → job_at id t.rows ≡ some j
    → Keeps id j (run_all ops t)
unfolding run_all
run_all-completed [] t id j n c h = (j, h, refl)
run_all-completed (op ∷ ops) t id j n c h =
    let (k, g, e) = run-completed op t id j (ground (arith, n)) c h in
    let (l, f, d) =
      run_all-completed ops (run op t) id k (ground (arith, n)) (rw (ap (λ (i : Job). i.state) e) c)
        g in
    (l, f, d ∙ ap (λ (i : Job). record i { job_coalesced_to_guid = l.job_coalesced_to_guid }) e)
