-- ===== src/Tests/Files.antt =====
-- The theorems on artifacts and on parsed data, at concrete inputs.
use treeherder_service.Prelude.{◌≡◌, refl, none, some, List, [], ◌∷◌, lookup, string_eq}
use treeherder_service.Json.{ok, err, Fields, end, field, obj, str, job_data_error, find_field}
use treeherder_service.JobData.{JobData, nested, missing, getitem, walk}
use treeherder_service.JobData.Context.{getitem-missing}
use treeherder_service.Jobs.{Job, active}
use treeherder_service.Ingest.{bytes}
use treeherder_service.Ingest.Ids.{JobIds}
use treeherder_service.Artifacts.{
  Entry, undefined, placeholder, collected, Collected, Row, load_job_artifacts, gather, gather_all,
  job_id_of, store_job_artifact, set_job_artifact, has_artifact,
}
use treeherder_service.Artifacts.Rows.{Adds, unique_rows, load_job_artifacts-Adds}

abbrev job : Job
job = record {
  id = 4;
  job_guid = "a1";
  signature = "hash";
  job_coalesced_to_guid = none;
  result_set_id = 5;
  build_platform_id = 1;
  machine_platform_id = 1;
  machine_id = 1;
  device_id = 1;
  option_collection_hash = "hash";
  job_type_id = 1;
  product_id = 1;
  failure_classification_id = 1;
  who = "me";
  reason = "push";
  result = "success";
  state = "completed";
  submit_timestamp = 1;
  start_timestamp = 2;
  end_timestamp = 3;
  pending_eta = 0;
  running_eta = 0;
  active_status = active;
}

abbrev ids : JobIds
ids = ("a1", job) ∷ []

abbrev stored : Row
stored = record { job_id = 4; name = "log"; type = "json"; blob = bytes "{}" }

abbrev talos : Collected
talos = record { name = some "talos_data"; type = none; blob = none; job_guid = some "a1" }

abbrev entries : List Entry
entries =
    placeholder (record { job_guid = "a1"; name = "log"; type = "json"; blob = bytes "[]" })
    ∷ undefined
    ∷ placeholder (record { job_guid = "b2"; name = "log"; type = "json"; blob = bytes "[]" })
    ∷ collected (record {
      name = some "bugs";
      type = some "json";
      blob = some (bytes "[]");
      job_guid = some "a1";
    })
    ∷ collected talos
    ∷ []

abbrev later : List Row
later = stored ∷ record { job_id = 4; name = "bugs"; type = "json"; blob = bytes "[]" } ∷ []

entries_are_loaded : load_job_artifacts entries ids (stored ∷ []) ≡ ok (later, 4 ∷ [], talos ∷ [])
unfolding load_job_artifacts gather_all gather job_id_of lookup store_job_artifact set_job_artifact
    has_artifact
entries_are_loaded = refl

load_job_artifacts-Adds_example : Adds ids (stored ∷ []) later
unfolding unique_rows has_artifact
load_job_artifacts-Adds_example =
    load_job_artifacts-Adds entries ids (stored ∷ []) later (4 ∷ []) (talos ∷ []) entries_are_loaded
      refl

abbrev parsed : Fields
parsed = field "job" (obj (field "who" (str "me") end)) end

abbrev inner : JobData
inner = record { context = "job" ∷ []; data_ = field "who" (str "me") end }

job_is_reached :
    walk ("job" ∷ []) (nested (record { context = []; data_ = parsed })) ≡ ok (nested inner)
unfolding walk getitem find_field
job_is_reached = refl

getitem-missing_example :
    getitem "job_guid" inner ≡ err (job_data_error (missing ("job" ∷ "job_guid" ∷ [])))
unfolding find_field
getitem-missing_example = getitem-missing ("job" ∷ []) parsed inner "job_guid" job_is_reached refl
