-- ===== src/Ingest/Logs.antt =====
-- The parse tasks of the log references, in `_load_log_urls` of treeherder/model/derived/jobs.py.
use treeherder_service.Prelude.{
  String, ◌≡◌, refl, ap, Bool, true, false, Option, none, some, List, [], ◌∷◌, arith, str_eq,
  eq_iff, exists, string_eq, lookup, Bool-cases, inl, inr,
}
use treeherder_service.Json.{Result, err, ◌>>=◌, key_error}
use treeherder_service.Ingest.{LogRow}
use treeherder_service.Ingest.Ids.{JobIds, UpdateRow, item}
use treeherder_service.Ingest.Load.{log_tasks, job_results}

-- Some update row is of the guid.
abbrev pub is_updated : String → List UpdateRow → Bool
is_updated guid = exists (λ u. str_eq u.row.job_guid guid)

lookup-job_results :
    (guid : String) (us : List UpdateRow) (results : List (String × String))
    → is_updated guid us ≡ false
    → lookup guid results ≡ none
    → lookup guid (job_results us results) ≡ none
unfolding job_results lookup
lookup-job_results guid [] results h r = r
lookup-job_results guid (u ∷ us) results h r =
    lookup-job_results guid us ((u.row.job_guid, u.row.result) ∷ results) (ground (arith, h))
      (ground (arith, h, r))

abbrev pub Fails {ℓ} : {A : Type ℓ} → Result A → Type ℓ
Fails r = (k : String) × (r ≡ err (key_error k))

Fails-item {ℓ κ} :
    {A : Type ℓ} {B : Type κ} (k : String) (o : Option A) (f : A → Result B)
    → ((a : A) → o ≡ some a → Fails (f a))
    → Fails (item k o >>= f)
Fails-item k none f h = (k, refl)
Fails-item k (some a) f h = h a refl

Fails-bind {ℓ κ} :
    {A : Type ℓ} {B : Type κ} (m : Result A) (f : A → Result B) → Fails m → Fails (m >>= f)
Fails-bind m f (k, e) = (k, rw e refl)

log_tasks-none :
    (logs : List LogRow) (ids : JobIds) (results : List (String × String)) (guid : String)
    → exists (λ (log : LogRow). str_eq log.job_guid guid) logs ≡ true
    → lookup guid results ≡ none
    → Fails (log_tasks logs ids results)
unfolding log_tasks
log_tasks-none [] ids results guid h g = cc
log_tasks-none (log ∷ logs) ids results guid h g =
    Fails-item log.job_guid (lookup log.job_guid ids) _ (λ job j.
      Fails-item log.job_guid (lookup log.job_guid results) _ (λ result r.
        elim (Bool-cases (str_eq log.job_guid guid)) [
          | inl e ↦ cc (ap (λ x. lookup x results) ((eq_iff log.job_guid guid).0 e))
          | inr e ↦
              Fails-bind (log_tasks logs ids results) _
                (log_tasks-none logs ids results guid (rw e at h) g)
        ]))

-- A log reference of a job that gets no update, as one that is pending gets none, makes the
-- building of the tasks fail with a KeyError, whatever is known of the job and of the others.
pub log_tasks-pending :
    (logs : List LogRow) (ids : JobIds) (us : List UpdateRow) (guid : String)
    → exists (λ (log : LogRow). str_eq log.job_guid guid) logs ≡ true
    → is_updated guid us ≡ false
    → (k : String) × (log_tasks logs ids (job_results us []) ≡ err (key_error k))
unfolding lookup
log_tasks-pending logs ids us guid h g =
    log_tasks-none logs ids (job_results us []) guid h (lookup-job_results guid us [] g refl)
