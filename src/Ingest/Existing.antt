-- ===== src/Ingest/Existing.antt =====
-- `_remove_existing_jobs` of treeherder/model/derived/jobs.py: which data of a batch are passed on.
use treeherder_service.Prelude.{
  String, ◌≡◌, refl, Bool, true, false, ◌&&◌, ◌||◌, List, [], ◌∷◌, arith, str_eq, eq_iff, keep,
  exists, contains, string_eq,
}
use treeherder_service.Json.{Result, ok, err}
use treeherder_service.Jobs.{Job, has_guid_in_state}
use treeherder_service.Ingest.Incoming.{
  Environment, Datum, guid_and_state, index_of, cons_read, pairs, in_states, existing_guids, is_new,
  remove_with, remove_existing_jobs,
}

abbrev pub reads_as : String → String → Result (String × String) → Bool
reads_as guid state (ok (g, s)) = str_eq g guid && str_eq s state
reads_as guid state (err e) = false

-- the datum is read as one of the guid in the state
abbrev pub reads : Environment → String → String → Datum → Bool
reads env guid state d = reads_as guid state (guid_and_state env d)

-- the datum stands in `data_idx` under the guid
abbrev pub indexed : Environment → String → Datum → Bool
indexed env guid d = str_eq (index_of env d) guid

is_pair : String → String → List (String × String) → Bool
is_pair guid state = exists (λ p. str_eq p.0 guid && str_eq p.1 state)

in_states-pair :
    (guid state : String) (ps : List (String × String)) (j : Job)
    → is_pair guid state ps ≡ true
    → str_eq j.job_guid guid ≡ true
    → str_eq j.state state ≡ true
    → in_states ps j ≡ true
unfolding in_states is_pair
in_states-pair guid state [] j h g s = cc
in_states-pair guid state ((a, b) ∷ ps) j h g s = ground (
  arith,
  in_states-pair guid state ps j,
  eq_iff a guid,
  eq_iff b state,
  eq_iff j.job_guid guid,
  eq_iff j.state state,
  eq_iff a j.job_guid,
  eq_iff b j.state,
)

contains-existing :
    (guid state : String) (ps : List (String × String)) (jobs : List Job)
    → is_pair guid state ps ≡ true
    → has_guid_in_state state guid jobs ≡ true
    → contains guid (existing_guids ps jobs) ≡ true
unfolding existing_guids has_guid_in_state
contains-existing guid state ps [] h g = cc
contains-existing guid state ps (j ∷ jobs) h g =
    ground (arith, contains-existing guid state ps jobs, in_states-pair guid state ps j)

cons_read-is_pair :
    (guid state : String) (r : Result (String × String)) (ps : List (String × String))
    (later : Bool)
    → (reads_as guid state r || later) ≡ true
    → (later ≡ true → is_pair guid state ps ≡ true)
    → is_pair guid state (cons_read r ps) ≡ true
unfolding is_pair
cons_read-is_pair guid state (ok (g, s)) ps later h f = ground (arith, h, f)
cons_read-is_pair guid state (err e) ps later h f = f h

is_pair-pairs :
    (env : Environment) (guid state : String) (ds : List Datum)
    → exists (reads env guid state) ds ≡ true
    → is_pair guid state (pairs env ds) ≡ true
unfolding pairs is_pair
is_pair-pairs env guid state [] h = cc
is_pair-pairs env guid state (d ∷ ds) h =
    cons_read-is_pair guid state (guid_and_state env d) (pairs env ds)
      (exists (reads env guid state) ds) h (is_pair-pairs env guid state ds)

-- no datum of the list stands under the guid, once the list is kept by a test that none passes
exists-keep :
    (p q : Datum → Bool) (ds : List Datum)
    → ((d : Datum) → p d ≡ true → q d ≡ false)
    → exists p (keep q ds) ≡ false
exists-keep p q [] h = refl
exists-keep p q (d ∷ ds) h = ground (arith, h d, exists-keep p q ds h)

exists-kept :
    (p q : Datum → Bool) (ds : List Datum)
    → ((d : Datum) → p d ≡ true → q d ≡ true)
    → exists p (keep q ds) ≡ exists p ds
exists-kept p q [] h = refl
exists-kept p q (d ∷ ds) h = ground (arith, h d, exists-kept p q ds h)

not_new :
    (env : Environment) (guid : String) (existing : List String) (d : Datum)
    → contains guid existing ≡ true
    → indexed env guid d ≡ true
    → is_new env existing d ≡ false
not_new env guid existing d c h =
    let same = (eq_iff (index_of env d) guid).0 h in rw same (rw c refl)

-- Where the batch has a job in a state, and the rows that the host shows have one of its guid in that
-- state, none of the data that are passed on stands under that guid.
pub remove_existing_jobs_lem :
    (env : Environment) (ds : List Datum) (jobs : List Job) (guid state : String)
    → exists (reads env guid state) ds ≡ true
    → has_guid_in_state state guid jobs ≡ true
    → exists (indexed env guid) (remove_existing_jobs env ds jobs) ≡ false
unfolding remove_existing_jobs
remove_existing_jobs_lem env ds jobs guid state h g =
    gone (pairs env ds) (is_pair-pairs env guid state ds h)
  where
    gone :
        (ps : List (String × String))
        → is_pair guid state ps ≡ true
        → exists (indexed env guid) (remove_with env ds jobs ps) ≡ false
    gone [] q = refl
    gone (p ∷ ps) q =
        exists-keep (indexed env guid) (is_new env (existing_guids (p ∷ ps) jobs)) ds (λ d.
          not_new env guid (existing_guids (p ∷ ps) jobs) d
            (contains-existing guid state (p ∷ ps) jobs q g))
