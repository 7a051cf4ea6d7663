-- ===== src/Artifacts/Rows.antt =====
-- What `load_job_artifacts` of treeherder/model/derived/jobs.py does to the table of artifacts.
use Prim.{tt}
use treeherder_service.Prelude.{
  ℕ, String, ◌≡◌, refl, ap, ◌∙◌, sym, Bool, true, false, not, ◌&&◌, Option, none, some, List, [],
  ◌∷◌, ◌++◌, arith, ◌==◌, str_eq, eq_iff, exists-append, Bool-cases, inl, inr, All, All-append,
  append_assoc, append-nil, string_eq,
}
use treeherder_service.Json.{ok, Holds, Holds-bind, Holds-then, Holds-ok}
use treeherder_service.Ingest.{ArtifactRow}
use treeherder_service.Ingest.Ids.{JobIds, item}
use treeherder_service.Artifacts.{
  Entry, undefined, placeholder, collected, Collected, Row, Gathered, nothing, job_id_of,
  is_performance, adapt_placeholders, adapt_collection, adapt_performance, gather, gather_all,
  has_artifact, set_job_artifact, store_job_artifact, load_job_artifacts,
}

-- no two rows are of one job and one name
unfoldable pub unique_rows : List Row → Bool
unique_rows [] = true
unique_rows (r ∷ rs) = not (has_artifact r.job_id r.name rs) && unique_rows rs

-- the id is one that the lookup answers with
abbrev pub IsIdOf : JobIds → Row → Type 0
IsIdOf ids r = (guid : String) × (job_id_of guid ids ≡ some r.job_id)

unique_rows-append :
    (a : Row) (rs : List Row)
    → has_artifact a.job_id a.name rs ≡ false
    → unique_rows rs ≡ true
    → unique_rows (rs ++ a ∷ []) ≡ true
unfolding unique_rows has_artifact
unique_rows-append a [] h u = refl
unique_rows-append a (r ∷ rs) h u = ground (
  arith,
  unique_rows-append a rs,
  exists-append (λ (x : Row). x.job_id == r.job_id && str_eq x.name r.name) rs (a ∷ []),
  eq_iff a.name r.name,
  eq_iff r.name a.name,
)

-- The rows behind those of the table are of jobs that are known, and no artifact is there twice.
abbrev pub Adds : JobIds → List Row → List Row → Type 0
Adds ids rows later =
    (new : List Row) × (later ≡ rows ++ new) × All (IsIdOf ids) new × (unique_rows later ≡ true)

set_job_artifact-Adds :
    (ids : JobIds) (a : Row) (rows : List Row)
    → IsIdOf ids a
    → unique_rows rows ≡ true
    → Adds ids rows (set_job_artifact a rows)
unfolding set_job_artifact
set_job_artifact-Adds ids a rows k u = elim (Bool-cases (has_artifact a.job_id a.name rows)) [
  | inl e ↦ rw e ([], sym (append-nil rows), tt, u)
  | inr e ↦ rw e (a ∷ [], refl, (k, tt), unique_rows-append a rows e u)
]

store_job_artifact-Adds :
    (ids : JobIds) (new rows : List Row)
    → All (IsIdOf ids) new
    → unique_rows rows ≡ true
    → Adds ids rows (store_job_artifact new rows)
unfolding store_job_artifact
store_job_artifact-Adds ids [] rows k u = ([], sym (append-nil rows), tt, u)
store_job_artifact-Adds ids (a ∷ more) rows (k, ks) u =
    let (one, e, h, v) = set_job_artifact-Adds ids a rows k u in
    let (two, f, g, w) = store_job_artifact-Adds ids more (set_job_artifact a rows) ks v in
    (
      one ++ two,
      f ∙ ap (λ x. x ++ two) e ∙ append_assoc rows one two,
      All-append (IsIdOf ids) one two h g,
      w,
    )

-- the gathered rows are of known jobs
abbrev AllKnown : JobIds → Gathered → Type 0
AllKnown ids g = All (IsIdOf ids) g.placeholders × All (IsIdOf ids) g.artifacts

module _ (ids : JobIds) (g : Gathered) (k : AllKnown ids g) where
  adapt_placeholders-AllKnown :
      (a : ArtifactRow) (guid : String) (id : Option ℕ)
      → job_id_of guid ids ≡ id
      → AllKnown ids (adapt_placeholders a id g)
  adapt_placeholders-AllKnown a guid none e = k
  adapt_placeholders-AllKnown a guid (some n) e =
      (All-append (IsIdOf ids) g.placeholders _ k.0 ((guid, e), tt), k.1)

  adapt_collection-AllKnown :
      (name : String) (a : Collected) (guid : String) (id : Option ℕ)
      → job_id_of guid ids ≡ id
      → Holds (AllKnown ids) (adapt_collection name a id g)
  adapt_collection-AllKnown name a guid none e = k
  adapt_collection-AllKnown name a guid (some n) e =
      Holds-bind (AllKnown ids) (item "type" a.type) _ (λ type.
        Holds-bind (AllKnown ids) (item "blob" a.blob) _
          (λ blob. (k.0, All-append (IsIdOf ids) g.artifacts _ k.1 ((guid, e), tt))))

  adapt_performance-AllKnown :
      (a : Collected) (id : Option ℕ) → AllKnown ids (adapt_performance a id g)
  adapt_performance-AllKnown a none = k
  adapt_performance-AllKnown a (some n) = k

  gather-AllKnown : (entry : Entry) → Holds (AllKnown ids) (gather ids entry g)
  unfolding gather
  gather-AllKnown undefined = k
  gather-AllKnown (placeholder a) =
      adapt_placeholders-AllKnown a a.job_guid (job_id_of a.job_guid ids) refl
  gather-AllKnown (collected a) = Holds-bind (AllKnown ids) (item "name" a.name) _ (λ name.
      Holds-bind (AllKnown ids) (item "job_guid" a.job_guid) _ (λ guid.
        elim (Bool-cases (is_performance name)) [
          | inl e ↦ rw e (adapt_performance-AllKnown a (job_id_of guid ids))
          | inr e ↦ rw e (adapt_collection-AllKnown name a guid (job_id_of guid ids) refl)
        ]))

gather_all-AllKnown :
    (ids : JobIds) (entries : List Entry) (g : Gathered)
    → AllKnown ids g
    → Holds (AllKnown ids) (gather_all ids entries g)
unfolding gather_all
gather_all-AllKnown ids [] g k = k
gather_all-AllKnown ids (entry ∷ entries) g k =
    Holds-then (AllKnown ids) (AllKnown ids) (gather ids entry g) _ (gather-AllKnown ids g k entry)
      (λ g2 k2. gather_all-AllKnown ids entries g2 k2)

Holds-load_job_artifacts :
    (entries : List Entry) (ids : JobIds) (rows : List Row)
    → unique_rows rows ≡ true
    → Holds (λ r. Adds ids rows r.0) (load_job_artifacts entries ids rows)
unfolding load_job_artifacts
Holds-load_job_artifacts entries ids rows u =
    Holds-then (AllKnown ids) _ (gather_all ids entries nothing) _
      (gather_all-AllKnown ids entries nothing (tt, tt))
      (λ g (p, a).
        let (one, e, h, v) = store_job_artifact-Adds ids g.placeholders rows p u in
        let (two, f, k, w) =
          store_job_artifact-Adds ids g.artifacts (store_job_artifact g.placeholders rows) a v in
        (
          one ++ two,
          f ∙ ap (λ x. x ++ two) e ∙ append_assoc rows one two,
          All-append (IsIdOf ids) one two h k,
          w,
        ))

-- Where the table has no artifact of a job twice, a load without an exception keeps its rows,
-- adds only rows of jobs that the lookup answers with, and no artifact of a job twice.
pub load_job_artifacts-Adds :
    (entries : List Entry) (ids : JobIds) (rows later : List Row) (job_ids : List ℕ)
    (performance : List Collected)
    → load_job_artifacts entries ids rows ≡ ok (later, job_ids, performance)
    → unique_rows rows ≡ true
    → Adds ids rows later
load_job_artifacts-Adds entries ids rows later job_ids performance h u =
    Holds-ok (λ r. Adds ids rows r.0) _ (later, job_ids, performance) h
      (Holds-load_job_artifacts entries ids rows u)
