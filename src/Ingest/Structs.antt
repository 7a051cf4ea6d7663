-- ===== src/Ingest/Structs.antt =====
-- `_load_ref_and_job_data_structs` and `get_number` of treeherder/model/derived/jobs.py: the
-- placeholders of a job, and the calls of the reference data that go with them.
use treeherder_service.Prelude.{
  ℕ, String, Bool, true, false, not, ◌&&◌, Option, none, some, List, [], ◌∷◌, ◌++◌, map, ◌==◌,
  str_eq, if◌then◌else◌, take_text,
}
use treeherder_service.Json.{
  Json, Items, Fields, Result, ok, err, ◌>>=◌, key_error, type_error, value_error,
}
use treeherder_service.Guid.{get_guid_root}
use treeherder_service.RefData.{
  RefData, Library, add_build_platform, add_machine_platform, add_job_type, add_product, add_device,
  add_machine,
}
use treeherder_service.RefData.OptionSets.{add_option_collection, add_reference_data_signature}
use treeherder_service.Ingest.{
  Platform, Stamp, number, text, null, LogReference, Blob, bytes, value, Artifact, JobBlob, Python,
  JobRow, LogRow, ArtifactRow,
}

-- what the loop over the batch extends
pub record Structs : Type 0 where
  pub unique_revision_hashes : List String
  pub job_placeholders : List JobRow
  pub log_placeholders : List LogRow
  pub artifact_placeholders : List ArtifactRow
  pub retry_job_guids : List String
  pub refdata : RefData

-- `d.get(k, 'unknown')`
abbrev pub or_unknown : Option String → String
or_unknown none = "unknown"
or_unknown (some s) = s

-- `job.get(k, {}).get(field, 'unknown')`
abbrev pub platform_part : (Platform → Option String) → Option Platform → String
platform_part field none = "unknown"
platform_part field (some p) = or_unknown (field p)

abbrev pub or_buildbot : Option String → String
or_buildbot none = "buildbot"
or_buildbot (some s) = s

-- `long(s)`: a text that is no number raises ValueError, null TypeError
unfoldable pub long_of : Python → Stamp → Result ℕ
long_of py (number n) = ok n
long_of py (text s) = elim (py.long s) [ none ↦ err value_error | some n ↦ ok n ]
long_of py null = err type_error

-- `get_number`: 0 where `long` raises
unfoldable pub get_number : Python → Option Stamp → ℕ
unfolding long_of
get_number py none = 0
get_number py (some s) = elim (long_of py s) [ ok n ↦ n | err e ↦ 0 ]

-- `long(job.get("end_timestamp", time.time()))`
abbrev pub machine_stamp : Python → ℕ → Option Stamp → Result ℕ
machine_stamp py now none = ok now
machine_stamp py now (some s) = long_of py s

unfoldable pub log_row : String → LogReference → LogRow
log_row job_guid log = record {
  job_guid = job_guid;
  name = take_text 50 (or_unknown log.name);
  url = take_text 255 (or_unknown log.url);
}

-- the truth value of a blob
unfoldable pub is_truthy : Blob → Bool
is_truthy (bytes s) = not (str_eq s "")
is_truthy (value Json.null) = false
is_truthy (value (Json.bool b)) = b
is_truthy (value (Json.num n)) = not (n == 0)
is_truthy (value (Json.str s)) = not (str_eq s "")
is_truthy (value (Json.arr Items.nil)) = false
is_truthy (value (Json.arr (Items.cons v vs))) = true
is_truthy (value (Json.obj Fields.end)) = false
is_truthy (value (Json.obj (Fields.field k v fs))) = true

-- a blob that is no `str` is written as JSON, where the type is 'json'
abbrev pub dumped : Python → String → Blob → Blob
dumped py type (bytes s) = bytes s
dumped py type (value v) = if str_eq type "json" then bytes (py.dumps v) else value v

abbrev pub row_of : String → String → String → Blob → List ArtifactRow
row_of job_guid name type blob =
    if not (str_eq name "") && not (str_eq type "") && is_truthy blob
    then record { job_guid = job_guid; name = name; type = type; blob = blob } ∷ []
    else []

-- An artifact without a name, a type or a blob is left out.
unfoldable pub artifact_row : Python → String → Artifact → List ArtifactRow
unfolding is_truthy
artifact_row py job_guid a = elim a.name [
  | none ↦ []
  | some name ↦ elim a.type [
    | none ↦ []
    | some type ↦ row_of job_guid name type (dumped py type a.blob)
  ]
]

unfoldable pub artifact_rows : Python → String → List Artifact → List ArtifactRow
unfolding artifact_row
artifact_rows py job_guid [] = []
artifact_rows py job_guid (a ∷ as_) = artifact_row py job_guid a ++ artifact_rows py job_guid as_

abbrev pub is_retry : JobBlob → Bool
is_retry job = str_eq (or_unknown job.result) "retry"

-- a product name of white space counts as unknown
abbrev pub product_of : Python → JobBlob → String
product_of py job =
    let product = or_unknown job.product_name in if py.is_blank product then "unknown" else product

-- The revision hash is looked for in a set that nothing is ever added to, so it is appended for
-- every job.
unfoldable pub load_structs :
    Python → Library → String → JobBlob → String → Structs → Result (String × Structs)
unfolding get_number log_row artifact_rows
load_structs py l project job revision_hash st =
    let build_os_name = platform_part (λ p. p.os_name) job.build_platform in
    let build_platform = platform_part (λ p. p.platform) job.build_platform in
    let build_architecture = platform_part (λ p. p.architecture) job.build_platform in
    let (build_platform_key, r1) =
      add_build_platform build_os_name build_platform build_architecture st.refdata in
    let machine_os_name = platform_part (λ p. p.os_name) job.machine_platform in
    let machine_platform = platform_part (λ p. p.platform) job.machine_platform in
    let machine_architecture = platform_part (λ p. p.architecture) job.machine_platform in
    let (machine_platform_key, r2) =
      add_machine_platform machine_os_name machine_platform machine_architecture r1 in
    let (option_collection_hash, r3) = add_option_collection l job.option_collection r2 in
    let machine = or_unknown job.machine in
    let device_name = or_unknown job.device_name in
    let job_type = or_unknown job.name in
    let job_symbol = or_unknown job.job_symbol in
    let group_name = or_unknown job.group_name in
    let group_symbol = or_unknown job.group_symbol in
    let product = product_of py job in
    machine_stamp py l.now job.end_timestamp >>= λ time.
    let r4 = add_device device_name (add_machine l machine time r3) in
    let (job_type_key, r5) = add_job_type job_type job_symbol group_name group_symbol r4 in
    let r6 = add_product product r5 in
    elim job.job_guid [
      | none ↦ err (key_error "job_guid")
      | some guid ↦
          let job_guid = take_text 50 guid in
          let build_system_type = or_buildbot job.build_system_type in
          let (signature, r7) =
            add_reference_data_signature l job.reference_data_name build_system_type project
              (build_system_type ∷ project ∷ build_os_name ∷ build_platform ∷ build_architecture
                ∷ machine_os_name ∷ machine_platform ∷ machine_architecture ∷ device_name
                ∷ group_name ∷ group_symbol ∷ job_type ∷ job_symbol ∷ option_collection_hash ∷ [])
              r6 in
          ok (
            job_guid,
            record {
              unique_revision_hashes = st.unique_revision_hashes ++ revision_hash ∷ [];
              job_placeholders =
                  st.job_placeholders
                  ++ record {
                    job_guid = job_guid;
                    signature = signature;
                    revision_hash = revision_hash;
                    build_platform_key = build_platform_key;
                    machine_platform_key = machine_platform_key;
                    machine = machine;
                    device_name = device_name;
                    option_collection_hash = option_collection_hash;
                    job_type_key = job_type_key;
                    product = product;
                    who = take_text 50 (or_unknown job.who);
                    reason = take_text 125 (or_unknown job.reason);
                    result = or_unknown job.result;
                    state = take_text 25 (or_unknown job.state);
                    submit_timestamp = get_number py job.submit_timestamp;
                    start_timestamp = get_number py job.start_timestamp;
                    end_timestamp = get_number py job.end_timestamp;
                    pending_avg = 0;
                    running_avg = 0;
                    root_guid = get_guid_root job_guid;
                  }
                    ∷ [];
              log_placeholders = st.log_placeholders ++ map (log_row job_guid) job.log_references;
              artifact_placeholders =
                  st.artifact_placeholders ++ artifact_rows py job_guid job.artifacts;
              retry_job_guids =
                  if is_retry job then st.retry_job_guids ++ job_guid ∷ [] else st.retry_job_guids;
              refdata = r7;
            },
          )
    ]
