-- ===== src/Cycle/Deletes.antt =====
-- What a first pass of `cycle_data` deletes: by the ladder of names, every statement is given the
-- ids of the jobs, also the statements on revisions and result sets.
use treeherder_service.Prelude.{
  ℕ, suc, ◌+◌, ◌-◌, ◌<◌, String, ◌≡◌, refl, ap, Bool, true, false, not, List, [], ◌∷◌, map, arith,
  ◌==◌, keep, contains, length, length-map, lookup, insert, nat_eq, string_eq, Bool-cases, inl, inr,
  All, ==_iff, subst,
}
use treeherder_service.Cycle.{
  JobRow, Db, Target, cycle_job_artifact, jobs_cycle_targets, placeholders_of, data_cycle_interval,
  get_result_sets_to_cycle, get_revision_ids_to_cycle, get_jobs_to_cycle, Progress,
  execute_os_delete, execute_jobs_deletes, cycle_data,
}

-- Whatever the target, the placeholders are the ids of the jobs; those of the result sets and the
-- revisions are never used.
pub placeholders_of_lem :
    (t : Target) (revs rss jobs : List ℕ) → placeholders_of t revs rss jobs ≡ jobs
unfolding placeholders_of
placeholders_of_lem cycle_job_artifact revs rss jobs = refl
placeholders_of_lem _ revs rss jobs = refl

-- the tables without the rows that belong to, or only have the number of, one of the jobs
abbrev pub purge : List ℕ → Db → Db
purge ids db = record db {
  job_artifact = keep (λ j. not (contains j ids)) db.job_artifact;
  job_log_url = keep (λ j. not (contains j ids)) db.job_log_url;
  job_note = keep (λ j. not (contains j ids)) db.job_note;
  bug_job_map = keep (λ j. not (contains j ids)) db.bug_job_map;
  job = keep (λ j. not (contains j.id ids)) db.job;
  revision = keep (λ r. not (contains r ids)) db.revision;
  revision_map = keep (λ m. not (contains m.result_set_id ids)) db.revision_map;
  result_set = keep (λ r. not (contains r.id ids)) db.result_set;
}

keep_all {ℓ} : {A : Type ℓ} (xs : List A) → keep (λ (x : A). true) xs ≡ xs
keep_all [] = refl
keep_all (x ∷ xs) = ap (◌∷◌ x) (keep_all xs)

execute_jobs_deletes_lem :
    (revs rss ids : List ℕ) (db : Db) (n total : ℕ)
    → (execute_jobs_deletes jobs_cycle_targets revs rss ids (record {
      db = db;
      counts = ("objectstore.deletes.cycle_objectstore", n) ∷ [];
      total_count = total;
    })).db
      ≡ purge ids db
unfolding execute_jobs_deletes lookup insert
execute_jobs_deletes_lem revs rss [] db n total = simp keep_all refl
execute_jobs_deletes_lem revs rss (i ∷ ids) db n total =
    let some_ids : (suc (length ids) == 0) ≡ false = ground arith in simp some_ids refl

-- each job that passes the test has its id among the ids
abbrev Covers : (JobRow → Bool) → List ℕ → List JobRow → Type 0
Covers p ids = All (λ j. p j ≡ true → contains j.id ids ≡ true)

Covers-cons :
    (p : JobRow → Bool) (i : ℕ) (ids : List ℕ) (js : List JobRow)
    → Covers p ids js
    → Covers p (i ∷ ids) js
Covers-cons p i ids [] h = tt
Covers-cons p i ids (j ∷ js) h = (λ e. ground (arith, h.0 e), Covers-cons p i ids js h.1)

Covers-self : (p : JobRow → Bool) (js : List JobRow) → Covers p (map (λ j. j.id) (keep p js)) js
Covers-self p [] = tt
Covers-self p (j ∷ js) = elim (Bool-cases (p j)) [
  | inl e ↦
      let kept : j.id ∷ map (λ k. k.id) (keep p js) ≡ map (λ k. k.id) (keep p (j ∷ js)) =
        rw e refl in
      subst (λ ids. Covers p ids (j ∷ js)) kept
        (λ _. ground arith, Covers-cons p j.id (map (λ k. k.id) (keep p js)) js (Covers-self p js))
  | inr e ↦
      let kept : map (λ k. k.id) (keep p js) ≡ map (λ k. k.id) (keep p (j ∷ js)) = rw e refl in
      subst (λ ids. Covers p ids (j ∷ js)) kept (λ f. cc, Covers-self p js)
]

keep-covered :
    (p : JobRow → Bool) (ids : List ℕ) (js : List JobRow)
    → Covers p ids js
    → keep p (keep (λ k. not (contains k.id ids)) js) ≡ []
keep-covered p ids [] h = refl
keep-covered p ids (j ∷ js) h = elim (Bool-cases (contains j.id ids)) [
  | inl e ↦ rw e (keep-covered p ids js h.1)
  | inr e ↦
      rw e
        (elim (Bool-cases (p j)) [ inl f ↦ cc (h.0 f) | inr f ↦ rw f (keep-covered p ids js h.1) ])
]

All-keep-not :
    (ids xs : List ℕ) → All (λ x. contains x ids ≡ false) (keep (λ x. not (contains x ids)) xs)
All-keep-not ids [] = tt
All-keep-not ids (x ∷ xs) = elim (Bool-cases (contains x ids)) [
  | inl e ↦ rw e (All-keep-not ids xs)
  | inr e ↦ rw e (e, All-keep-not ids xs)
]

module _ (now : ℕ) (db : Db) where
  -- the expired result sets that the pass takes, and their jobs
  abbrev pub expired : List ℕ
  expired = get_result_sets_to_cycle (now - data_cycle_interval) db

  abbrev pub job_data : List JobRow
  job_data = get_jobs_to_cycle expired db

  abbrev pub job_ids : List ℕ
  job_ids = map (λ j. j.id) job_data

  abbrev pub guids : List String
  guids = map (λ j. j.job_guid) job_data

  abbrev after_os : Db
  after_os = record db { objectstore = keep (λ g. not (contains g guids)) db.objectstore }

  keep_no_guids :
      (js : List JobRow)
      → length js ≡ 0
      → keep (λ g. not (contains g (map (λ (j : JobRow). j.job_guid) js))) db.objectstore
        ≡ db.objectstore
  keep_no_guids [] e = keep_all db.objectstore
  keep_no_guids (j ∷ js) e = absurd (omega arith)

  -- the objectstore's pass, with whatever counts
  OsDone : Progress → Type 0
  OsDone p =
      (n : ℕ) × (m : ℕ) × (p ≡ record {
        db = after_os;
        counts = ("objectstore.deletes.cycle_objectstore", n) ∷ [];
        total_count = m;
      })

  execute_os_delete_lem :
      OsDone (execute_os_delete guids (record { db = db; counts = []; total_count = 0 }))
  unfolding OsDone execute_os_delete lookup insert
  execute_os_delete_lem = elim (Bool-cases (length guids == 0)) [
    | inl e ↦
        let no_jobs : length job_data ≡ 0 = omega (
          arith,
          length-map (λ (j : JobRow). j.job_guid) job_data,
          (==_iff (length guids) 0).0 e,
        ) in
        (0, 0, rw (e, keep_no_guids job_data no_jobs) refl)
    | inr e ↦
        let deleted = length db.objectstore - length after_os.objectstore in
        (deleted, 0 + deleted, rw e refl)
  ]

  -- A first pass that finds an expired result set leaves exactly what `purge` leaves for the ids
  -- of the expired jobs, and an objectstore without their guids.
  cycle_data-purge : 0 < length expired → (cycle_data now [] db).db ≡ purge job_ids after_os
  unfolding cycle_data OsDone
  cycle_data-purge h =
      let (n, m, e) = execute_os_delete_lem in
      let found : (length expired == 0) ≡ false = ground arith in
      rw (found, e)
        (execute_jobs_deletes_lem (get_revision_ids_to_cycle expired db) expired job_ids after_os n
          m)

  abbrev pub after : Db
  after = (cycle_data now [] db).db

  -- Behind a first pass that finds expired result sets, none of these has a job left, and no
  -- artifact, log, note or bug of an expired job is left.
  pub cycle_data-jobs :
      0 < length expired
      → (get_jobs_to_cycle expired after ≡ [])
        × All (λ j. contains j job_ids ≡ false) after.job_artifact
        × All (λ j. contains j job_ids ≡ false) after.job_log_url
        × All (λ j. contains j job_ids ≡ false) after.job_note
        × All (λ j. contains j job_ids ≡ false) after.bug_job_map
  unfolding get_jobs_to_cycle
  cycle_data-jobs h = rw (cycle_data-purge h) (
    keep-covered (λ j. contains j.result_set_id expired) job_ids db.job
        (Covers-self (λ j. contains j.result_set_id expired) db.job),
    All-keep-not job_ids db.job_artifact,
    All-keep-not job_ids db.job_log_url,
    All-keep-not job_ids db.job_note,
    All-keep-not job_ids db.bug_job_map,
  )

  -- A first pass that finds expired result sets removes a result set, or a revision, exactly when
  -- its id is by chance the id of an expired job: not when it is expired itself.
  pub cycle_data-result_set :
      0 < length expired
      → (after.result_set ≡ keep (λ r. not (contains r.id job_ids)) db.result_set)
        × (after.revision ≡ keep (λ r. not (contains r job_ids)) db.revision)
        × (after.revision_map ≡ keep (λ m. not (contains m.result_set_id job_ids)) db.revision_map)
  cycle_data-result_set h = rw (cycle_data-purge h) (refl, refl, refl)
