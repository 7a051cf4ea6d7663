-- ===== src/Ingest.antt =====
-- From a job of a batch to the rows of the database, in `load_job_data` of
-- treeherder/model/derived/jobs.py. A job is the dictionary under 'job', whose fields have the
-- documented types; a field that the dictionary does not have is `none`.
pub mod Structs
pub mod Ids
pub mod Incoming
pub mod Load
pub mod Bounds
pub mod Retries
pub mod Refines
pub mod Existing
pub mod Unread
pub mod Logs
use treeherder_service.Prelude.{ℕ, String, Option, List, Bool}
use treeherder_service.Json.{Json}

-- The build or machine platform of a job.
pub record Platform : Type 0 where
  pub os_name : Option String
  pub platform : Option String
  pub architecture : Option String

-- a timestamp as it comes: a number, a text, or null
pub data Stamp : Type 0 where
  number : ℕ → Stamp
  text : String → Stamp
  null : Stamp

pub record LogReference : Type 0 where
  pub name : Option String
  pub url : Option String

-- the blob of an artifact: a `str`, or any other value
pub data Blob : Type 0 where
  bytes : String → Blob
  value : Json → Blob

pub record Artifact : Type 0 where
  pub name : Option String
  pub type : Option String
  pub blob : Blob

pub record JobBlob : Type 0 where
  pub build_platform : Option Platform
  pub machine_platform : Option Platform
  pub option_collection : List String
  pub machine : Option String
  pub end_timestamp : Option Stamp
  pub device_name : Option String
  pub name : Option String
  pub job_symbol : Option String
  pub group_name : Option String
  pub group_symbol : Option String
  pub product_name : Option String
  pub job_guid : Option String
  pub who : Option String
  pub reason : Option String
  pub state : Option String
  pub result : Option String
  pub build_system_type : Option String
  pub reference_data_name : Option String
  pub submit_timestamp : Option Stamp
  pub start_timestamp : Option Stamp
  pub log_references : List LogReference
  pub artifacts : List Artifact

-- What the code takes of Python: `long` on a text, `s.strip()` being empty, and `json.dumps`.
pub record Python : Type 0 where
  pub long : String → Option ℕ
  pub is_blank : String → Bool
  pub dumps : Json → String

-- a row of `job_placeholders`, before the ids are put in
pub record JobRow : Type 0 where
  pub job_guid : String
  pub signature : String
  pub revision_hash : String
  pub build_platform_key : String
  pub machine_platform_key : String
  pub machine : String
  pub device_name : String
  pub option_collection_hash : String
  pub job_type_key : String
  pub product : String
  pub who : String
  pub reason : String
  pub result : String
  pub state : String
  pub submit_timestamp : ℕ
  pub start_timestamp : ℕ
  pub end_timestamp : ℕ
  pub pending_avg : ℕ
  pub running_avg : ℕ
  pub root_guid : String

pub record LogRow : Type 0 where
  pub job_guid : String
  pub name : String
  pub url : String

pub record ArtifactRow : Type 0 where
  pub job_guid : String
  pub name : String
  pub type : String
  pub blob : Blob
