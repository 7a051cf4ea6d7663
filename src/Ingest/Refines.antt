-- ===== src/Ingest/Refines.antt =====
-- The loading of a batch as a run of the statements on the `job` table.
use treeherder_service.Prelude.{
  ℕ, String, ◌≡◌, refl, ap, ◌∙◌, sym, subst, Bool, true, false, exists, some, List, [], ◌∷◌, ◌++◌,
  map,
}
use treeherder_service.Json.{ok, Holds, Holds-bind, Holds-ok}
use treeherder_service.Jobs.{Job, Table, Insert, Update, is_completed}
use treeherder_service.Jobs.Ops.{Op, create, update, coalesce, deletes, run, run_all}
use treeherder_service.Jobs.Final.{job_at, Keeps, run_all-completed}
use treeherder_service.Objectstore.{Store}
use treeherder_service.Artifacts.{Row, load_job_artifacts}
use treeherder_service.Ingest.Ids.{set_all_ids, no_ids, load_jobs, create_all, put_ids}
use treeherder_service.Ingest.Load.{
  Loop, Loaded, update_all, coalesce_all, finish, load_data, load_new, load_job_data, start,
  log_tasks,
}
use treeherder_service.Ingest.Incoming.{Environment, Datum, remove_existing_jobs}

run_all-append :
    (ops ops2 : List Op) (t : Table) → run_all (ops ++ ops2) t ≡ run_all ops2 (run_all ops t)
unfolding run_all
run_all-append [] ops2 t = refl
run_all-append (op ∷ ops) ops2 t = run_all-append ops ops2 (run op t)

create_all-run_all : (ps : List Insert) (t : Table) → create_all ps t ≡ run_all (map create ps) t
unfolding create_all run_all run
create_all-run_all [] t = refl
create_all-run_all (p ∷ ps) t = create_all-run_all ps (run (create p) t)

update_all-run_all : (us : List Update) (t : Table) → update_all us t ≡ run_all (map update us) t
unfolding update_all run_all run
update_all-run_all [] t = refl
update_all-run_all (u ∷ us) t = update_all-run_all us (run (update u) t)

abbrev pub coalesce_op : String × String → Op
coalesce_op (to, guid) = coalesce to guid

coalesce_all-run_all :
    (ps : List (String × String)) (t : Table) → coalesce_all ps t ≡ run_all (map coalesce_op ps) t
unfolding coalesce_all run_all run
coalesce_all-run_all [] t = refl
coalesce_all-run_all ((to, guid) ∷ ps) t = coalesce_all-run_all ps (run (coalesce to guid) t)

load_jobs-create_all :
    (read_host : Table → List Job) (ps : List Insert) (guids : List String) (t : Table)
    → (load_jobs read_host ps guids t).1 ≡ create_all ps t
unfolding load_jobs create_all
load_jobs-create_all read_host [] guids t = refl
load_jobs-create_all read_host (p ∷ ps) guids t = refl

-- the statements of a batch on the table, in their order
abbrev pub statements : List Insert → List Update → List (String × String) → List Op
statements ps us cs = map create ps ++ (map update us ++ map coalesce_op cs)

-- Insertions, then updates, then coalescings that take the one table to the other.
abbrev pub Reaches : Table → Table → Type 0
Reaches t u =
    (ps : List Insert) × (us : List Update) × (cs : List (String × String)) × (u
      ≡ run_all (statements ps us cs) t)

three_runs :
    (read_host : Table → List Job) (ps : List Insert) (guids : List String) (us : List Update)
    (cs : List (String × String)) (t : Table)
    → Reaches t (coalesce_all cs (update_all us (load_jobs read_host ps guids t).1))
three_runs read_host ps guids us cs t = (
  ps,
  us,
  cs,
  ap (λ u. coalesce_all cs (update_all us u))
        (load_jobs-create_all read_host ps guids t ∙ create_all-run_all ps t)
      ∙ ap (coalesce_all cs) (update_all-run_all us (run_all (map create ps) t))
      ∙ coalesce_all-run_all cs (run_all (map update us) (run_all (map create ps) t))
      ∙ sym (
          run_all-append (map create ps) (map update us ++ map coalesce_op cs) t
          ∙ run_all-append (map update us) (map coalesce_op cs) (run_all (map create ps) t)),
)

finish-Reaches :
    (env : Environment) (loop : Loop) (t : Table) (artifacts : List Row)
    → Holds (λ r. Reaches t r.table) (finish env loop t artifacts)
unfolding finish
finish-Reaches env loop t artifacts =
    Holds-bind _ (set_all_ids _ _ _ loop.structs.job_placeholders no_ids) _ (λ ids.
      Holds-bind _ (log_tasks loop.structs.log_placeholders _ _) _ (λ tasks.
        Holds-bind _ (load_job_artifacts _ _ artifacts) _ (λ stored.
          Holds-bind _ (put_ids ids.updates _) _ (λ updates.
            three_runs env.read_host ids.inserts ids.job_guid_list updates loop.coalesced t))))

load_new-Reaches :
    (env : Environment) (raise_errors : Bool) (ds : List Datum) (store : Store) (t : Table)
    (artifacts : List Row)
    → Holds (λ r. Reaches t r.table) (load_new env raise_errors ds store t artifacts)
unfolding run_all
load_new-Reaches env raise_errors [] store t artifacts = ([], [], [], refl)
load_new-Reaches env raise_errors (d ∷ ds) store t artifacts =
    Holds-bind _ (load_data env raise_errors (d ∷ ds) (start store)) _
      (λ loop. finish-Reaches env loop t artifacts)

spared :
    (id : ℕ) (ps : List Insert) (us : List Update) (cs : List (String × String))
    → exists (deletes id) (statements ps us cs) ≡ false
spared id [] [] [] = refl
spared id [] [] (c ∷ cs) = spared id [] [] cs
spared id [] (u ∷ us) cs = spared id [] us cs
spared id (p ∷ ps) us cs = spared id ps us cs

-- A batch that is loaded without an exception acts on the job table as insertions, then updates, then
-- coalescings; so a job that was completed before is still there, equal but for the guid that it was
-- coalesced to.
pub load_job_data-Reaches :
    (env : Environment) (raise_errors : Bool) (ds : List Datum) (store : Store) (t : Table)
    (artifacts : List Row) (r : Loaded) (id : ℕ) (j : Job)
    → load_job_data env raise_errors ds store t artifacts ≡ ok r
    → is_completed j ≡ true
    → job_at id t.rows ≡ some j
    → Reaches t r.table × Keeps id j r.table
unfolding load_job_data
load_job_data-Reaches env raise_errors ds store t artifacts r id j h c g =
    let new = remove_existing_jobs env ds (env.read_host t) in
    let reached = load_new-Reaches env raise_errors new store t artifacts in
    let (ps, us, cs, e) = Holds-ok (λ (x : Loaded). Reaches t x.table) _ r h reached in
    (
      (ps, us, cs, e),
      subst (Keeps id j) (sym e)
          (run_all-completed (statements ps us cs) t id j (spared id ps us cs) c g),
    )
