-- ===== src/Ingest/Unread.antt =====
-- The data of a batch that cannot be read, in `_remove_existing_jobs` of
-- treeherder/model/derived/jobs.py.
use treeherder_service.Prelude.{
  String, ◌≡◌, refl, ap, ◌∙◌, Bool, true, false, not, ◌||◌, List, [], ◌∷◌, map, arith, keep, exists,
  contains, string_eq, if◌then◌else◌, Bool-cases, inl, inr,
}
use treeherder_service.Json.{Result, ok, err}
use treeherder_service.Jobs.{Job}
use treeherder_service.Ingest.Incoming.{
  Environment, Datum, guid_and_state, index_of, cons_read, pairs, in_states, existing_guids, is_new,
  remove_with, remove_existing_jobs,
}

-- the guid and the state of a datum can be read, or not
abbrev is_ok : Result (String × String) → Bool
is_ok (ok p) = true
is_ok (err e) = false

abbrev pub readable : Environment → Datum → Bool
readable env d = is_ok (guid_and_state env d)

abbrev pub unread : Environment → Datum → Bool
unread env d = not (readable env d)

abbrev is_cons : List (String × String) → Bool
is_cons [] = false
is_cons (p ∷ ps) = true

is_cons-cons_read :
    (r : Result (String × String)) (ps : List (String × String))
    → is_cons (cons_read r ps) ≡ (is_ok r || is_cons ps)
is_cons-cons_read (ok p) ps = refl
is_cons-cons_read (err e) ps = refl

is_cons-pairs :
    (env : Environment) (ds : List Datum) → is_cons (pairs env ds) ≡ exists (readable env) ds
unfolding pairs
is_cons-pairs env [] = refl
is_cons-pairs env (d ∷ ds) =
    is_cons-cons_read (guid_and_state env d) (pairs env ds)
    ∙ ap (λ b. readable env d || b) (is_cons-pairs env ds)

index_of-unread : (env : Environment) (d : Datum) → unread env d ≡ true → index_of env d ≡ "skipped"
unfolding index_of
index_of-unread env d h = go (guid_and_state env d) h
  where
    go :
        (r : Result (String × String))
        → not (is_ok r) ≡ true
        → elim r [ ok (guid, state) ↦ guid | err e ↦ "skipped" ] ≡ "skipped"
    go (ok p) g = absurd (ground (arith, g))
    go (err e) g = refl

abbrev pub guids : List Job → List String
guids jobs = map (λ j. j.job_guid) jobs

existing-skipped :
    (ps : List (String × String)) (jobs : List Job)
    → contains "skipped" (guids jobs) ≡ false
    → contains "skipped" (existing_guids ps jobs) ≡ false
unfolding existing_guids
existing-skipped ps [] h = refl
existing-skipped ps (j ∷ jobs) h = elim (Bool-cases (in_states ps j)) [
  | inl e ↦ rw e (ground (arith, h, existing-skipped ps jobs))
  | inr e ↦ rw e (existing-skipped ps jobs (ground (arith, h)))
]

keep-unread :
    (env : Environment) (existing : List String) (ds : List Datum)
    → contains "skipped" existing ≡ false
    → keep (unread env) (keep (is_new env existing) ds) ≡ keep (unread env) ds
keep-unread env existing [] h = refl
keep-unread env existing (d ∷ ds) h = elim (Bool-cases (unread env d)) [
  | inl e ↦
      let new : is_new env existing d ≡ true = rw (index_of-unread env d e) (rw h refl) in
      rw new (rw e (ap (λ l. d ∷ l) (keep-unread env existing ds h)))
  | inr e ↦ elim (Bool-cases (is_new env existing d)) [
    | inl f ↦ rw f (rw e (keep-unread env existing ds h))
    | inr f ↦ rw f (rw e (keep-unread env existing ds h))
  ]
]

-- Where no job of the rows that the host shows has the guid "skipped", the data of a batch that cannot be
-- read are passed on, all of them in their order, if some datum of the batch can be read, and none of them if not.
pub remove_existing_jobs-unread :
    (env : Environment) (ds : List Datum) (jobs : List Job)
    → contains "skipped" (guids jobs) ≡ false
    → keep (unread env) (remove_existing_jobs env ds jobs)
      ≡ (if exists (readable env) ds then keep (unread env) ds else [])
unfolding remove_existing_jobs
remove_existing_jobs-unread env ds jobs h =
    go (pairs env ds) ∙ ap (λ b. if b then keep (unread env) ds else []) (is_cons-pairs env ds)
  where
    go :
        (ps : List (String × String))
        → keep (unread env) (remove_with env ds jobs ps)
          ≡ (if is_cons ps then keep (unread env) ds else [])
    go [] = refl
    go (p ∷ ps) =
        keep-unread env (existing_guids (p ∷ ps) jobs) ds (existing-skipped (p ∷ ps) jobs h)
