-- ===== src/Artifacts.antt =====
-- `load_job_artifacts` of treeherder/model/derived/jobs.py with its adapters, and the statement
-- jobs.inserts.set_job_artifact of treeherder/model/sql/jobs.json. What is handed to
-- `store_performance_artifact` is part of the answer; the log messages are left out.
pub mod Rows
use treeherder_service.Prelude.{
  ℕ, ltb, String, Bool, true, false, ◌&&◌, ◌||◌, Option, none, some, List, [], ◌∷◌, ◌++◌, ◌==◌,
  str_eq, if◌then◌else◌, exists, lookup, string_eq,
}
use treeherder_service.Json.{Result, ok, err, ◌>>=◌, key_error}
use treeherder_service.Jobs.{Job}
use treeherder_service.Ingest.{Blob, ArtifactRow}
use treeherder_service.Ingest.Ids.{JobIds, item}

-- an artifact of a collection, a dictionary
pub record Collected : Type 0 where
  pub name : Option String
  pub type : Option String
  pub blob : Option Blob
  pub job_guid : Option String

-- nothing, a list of placeholders of `load_job_data`, or a dictionary
pub data Entry : Type 0 where
  undefined : Entry
  placeholder : ArtifactRow → Entry
  collected : Collected → Entry

-- a row of the table `job_artifact`, and what is inserted into it
pub record Row : Type 0 where
  pub job_id : ℕ
  pub name : String
  pub type : String
  pub blob : Blob

pub record Gathered : Type 0 where
  pub placeholders : List Row
  pub artifacts : List Row
  pub performance : List Collected
  pub performance_ids : List ℕ

abbrev pub nothing : Gathered
nothing = record { placeholders = []; artifacts = []; performance = []; performance_ids = [] }

abbrev id_of : Option Job → Option ℕ
id_of none = none
id_of (some job) = if ltb 0 job.id then some job.id else none

-- `job_id_lookup.get(job_guid, {}).get('id', None)`, where it is true
unfoldable pub job_id_of : String → JobIds → Option ℕ
job_id_of guid ids = id_of (lookup guid ids)

-- PerformanceDataAdapter.performance_types
abbrev pub is_performance : String → Bool
is_performance name = str_eq name "performance" || str_eq name "talos_data"

abbrev pub adapt_placeholders : ArtifactRow → Option ℕ → Gathered → Gathered
adapt_placeholders a none g = g
adapt_placeholders a (some job_id) g = record g {
  placeholders =
      g.placeholders
      ++ record { job_id = job_id; name = a.name; type = a.type; blob = a.blob } ∷ [];
}

abbrev pub adapt_collection : String → Collected → Option ℕ → Gathered → Result Gathered
adapt_collection name a none g = ok g
adapt_collection name a (some job_id) g = item "type" a.type >>= λ type.
    item "blob" a.blob >>= λ blob. ok (record g {
      artifacts =
          g.artifacts ++ record { job_id = job_id; name = name; type = type; blob = blob } ∷ [];
    })

abbrev pub adapt_performance : Collected → Option ℕ → Gathered → Gathered
adapt_performance a none g = g
adapt_performance a (some job_id) g = record g {
  performance = g.performance ++ a ∷ [];
  performance_ids = g.performance_ids ++ job_id ∷ [];
}

-- one artifact of the list
unfoldable pub gather : JobIds → Entry → Gathered → Result Gathered
gather ids undefined g = ok g
gather ids (placeholder a) g = ok (adapt_placeholders a (job_id_of a.job_guid ids) g)
gather ids (collected a) g = item "name" a.name >>= λ name.
    item "job_guid" a.job_guid >>= λ job_guid.
    if is_performance name
    then ok (adapt_performance a (job_id_of job_guid ids) g)
    else adapt_collection name a (job_id_of job_guid ids) g

unfoldable pub gather_all : JobIds → List Entry → Gathered → Result Gathered
gather_all ids [] g = ok g
gather_all ids (e ∷ es) g = gather ids e g >>= λ g'. gather_all ids es g'

unfoldable pub has_artifact : ℕ → String → List Row → Bool
has_artifact job_id name = exists (λ r. r.job_id == job_id && str_eq r.name name)

-- jobs.inserts.set_job_artifact
unfoldable pub set_job_artifact : Row → List Row → List Row
unfolding has_artifact
set_job_artifact a rows = if has_artifact a.job_id a.name rows then rows else rows ++ a ∷ []

-- `store_job_artifact`: one statement for each row
unfoldable pub store_job_artifact : List Row → List Row → List Row
store_job_artifact [] rows = rows
store_job_artifact (a ∷ as_) rows = store_job_artifact as_ (set_job_artifact a rows)

-- the table, and the ids and artifacts for `store_performance_artifact`
unfoldable pub load_job_artifacts :
    List Entry → JobIds → List Row → Result (List Row × List ℕ × List Collected)
unfolding gather_all store_job_artifact
load_job_artifacts entries ids rows = gather_all ids entries nothing >>= λ g. ok (
  store_job_artifact g.artifacts (store_job_artifact g.placeholders rows),
  g.performance_ids,
  g.performance,
)
