-- ===== src/Objectstore/Submission.antt =====
-- What `store_job_data` leaves in the table, and what it answers.
use treeherder_service.Prelude.{
  String, ◌≡◌, refl, Bool, true, false, ◌||◌, Option, none, some, List, [], ◌∷◌, ◌++◌, arith,
  Bool-cases, inl, inr, str_eq, eq_iff, append_assoc, append-nil, sym, ◌∙◌, ap, All-append, All,
  exists, string_eq,
}
use treeherder_service.Json.{Json, Result, ok, err}
use treeherder_service.Objectstore.{
  Row, Store, ready, Placeholder, Runtime, new_row, flag, guid_of, has_guid, store_json, store_all,
  queue_job, queue_jobs, store_job_data,
}
use treeherder_service.Objectstore.Rows.{has_guid-append}

has_guid-store_json :
    (guid : String) (p : Placeholder) (s : Store)
    → has_guid guid (store_json p s).rows ≡ (has_guid guid s.rows || str_eq p.job_guid guid)
unfolding store_json
has_guid-store_json guid p s = elim (Bool-cases (has_guid p.job_guid s.rows)) [
  | inl e ↦ rw e (elim (Bool-cases (str_eq p.job_guid guid)) [
    | inl f ↦ ground (arith, eq_iff p.job_guid guid)
    | inr f ↦ ground arith
  ])
  | inr e ↦ rw (e, has_guid-append guid s.rows) refl
]

store_json_known :
    (q : Placeholder) (s : Store) → has_guid q.job_guid s.rows ≡ true → store_json q s ≡ s
unfolding store_json
store_json_known q s h = rw h refl

-- Submitting a job that the table has already, in whatever state it is, changes nothing: the
-- first submission of a guid wins.
store_json_idem :
    (p q : Placeholder) (s : Store)
    → q.job_guid ≡ p.job_guid
    → store_json q (store_json p s) ≡ store_json p s
store_json_idem p q s e =
    store_json_known q (store_json p s)
      (ground (arith, has_guid-store_json q.job_guid p s, eq_iff p.job_guid q.job_guid))

-- What a new row of a call with this `error` holds.
abbrev pub IsQueued : Option String → Row → Type 0
IsQueued error r =
    (r.error ≡ str_eq (flag error) "Y")
    × (r.error_msg ≡ some (flag error))
    × (r.processed_state ≡ ready)
    × (r.worker_id ≡ none)

abbrev IsFlagged : Option String → Placeholder → Type 0
IsFlagged error p = (p.error ≡ str_eq (flag error) "Y") × (p.error_msg ≡ flag error)

abbrev pub Appends : Option String → Store → Store → Type 0
Appends error s t = (new : List Row) × (t.rows ≡ s.rows ++ new) × All (IsQueued error) new

store_json-Appends :
    (error : Option String) (p : Placeholder) (s : Store)
    → IsFlagged error p
    → Appends error s (store_json p s)
unfolding store_json
store_json-Appends error p s h = elim (Bool-cases (has_guid p.job_guid s.rows)) [
  | inl known ↦ ([], rw known (sym (append-nil s.rows)), tt)
  | inr fresh ↦ (new_row s.next_id p ∷ [], rw fresh refl, ((h.0, ap some h.1, refl, refl), tt))
]

store_all-Appends :
    (error : Option String) (ps : List Placeholder) (s : Store)
    → All (IsFlagged error) ps
    → Appends error s (store_all ps s)
unfolding store_all
store_all-Appends error [] s h = ([], sym (append-nil s.rows), tt)
store_all-Appends error (p ∷ ps) s h =
    let (first, e, k) = store_json-Appends error p s h.0 in
    let (later, f, l) = store_all-Appends error ps (store_json p s) h.1 in
    (
      first ++ later,
      f ∙ ap (λ rs. rs ++ later) e ∙ append_assoc s.rows first later,
      All-append (IsQueued error) first later k l,
    )

queue_job-IsFlagged :
    (rt : Runtime) (error : Option String) (job : Json) (r : Result Json)
    (acc : List (String × Json) × List Placeholder)
    → All (IsFlagged error) acc.1
    → All (IsFlagged error) (queue_job rt error job r acc).1
unfolding queue_job
queue_job-IsFlagged rt error job (ok guid) (response, ps) h =
    All-append (IsFlagged error) ps _ h ((refl, refl), tt)
queue_job-IsFlagged rt error job (err e) (response, ps) h = h

queue_jobs-IsFlagged :
    (rt : Runtime) (error : Option String) (jobs : List Json)
    (acc : List (String × Json) × List Placeholder)
    → All (IsFlagged error) acc.1
    → All (IsFlagged error) (queue_jobs rt error jobs acc).1
unfolding queue_jobs
queue_jobs-IsFlagged rt error [] acc h = h
queue_jobs-IsFlagged rt error (job ∷ jobs) acc h =
    queue_jobs-IsFlagged rt error jobs (queue_job rt error job (guid_of job) acc)
      (queue_job-IsFlagged rt error job (guid_of job) acc h)

-- The call only adds rows behind those of the table. Each is ready, belongs to no worker, and is
-- marked with an error exactly when one is given; its message is the flag itself, 'N' or 'Y', and
-- so never the text of the error.
pub store_job_data-Appends :
    (rt : Runtime) (jobs : List Json) (error : Option String) (s : Store)
    → Appends error s (store_job_data rt jobs error s).1
unfolding store_job_data
store_job_data-Appends rt jobs error s =
    store_all-Appends error (queue_jobs rt error jobs ([], [])).1 s
      (queue_jobs-IsFlagged rt error jobs ([], []) tt)

abbrev holds_guid : String → List Placeholder → Bool
holds_guid guid = exists (λ p. str_eq p.job_guid guid)

-- the job has this guid, once that is stored
abbrev pub names_guid : Runtime → String → Json → Bool
names_guid rt guid job = elim (guid_of job) [ ok g ↦ str_eq (rt.column g) guid | err e ↦ false ]
