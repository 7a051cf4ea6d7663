-- ===== src/Tests/Builds.antt =====
-- The theorems on the jobs of the build system, at concrete inputs.
use treeherder_service.Prelude.{
  String, ◌≡◌, refl, false, none, some, [], ◌∷◌, lookup, insert, string_eq, nat_eq,
}
use treeherder_service.Json.{ok, Holds}
use treeherder_service.Guid.{generate_job_guid}
use treeherder_service.Buildapi.{
  Build, by_id, get_property, find_job_guid, join_numbers, read_times, times_by_id, coalesced_guids,
  read_endtime,
}
use treeherder_service.Buildapi.Requests.{CoversAll, find_job_guid-CoversAll}
use treeherder_service.Buildapi.Queued.{
  ResultSet, Buildbot, PendingJob, Source, Web, lookup_revisions, new_job, pending_job,
  transform_pending, add_projects, add_revisions, add_found, add_jobs, add_job, get_resultset,
  in_project, missing_revision, add_missing, revision_dict, revisions_of,
}
use treeherder_service.Buildapi.Delivered.{PendingDelivers, transform_pending-Delivers}
use treeherder_service.Tests.Queue.{printing}

-- a retry of two requests that were coalesced
abbrev build : Build
build = record {
  property_request_ids = none;
  property_request_times = some (by_id (("1365733932", 7) ∷ []));
  request_ids = some (42 ∷ 42 ∷ []);
  requesttime = some (by_id []);
  result = 5;
  endtime = some 12345;
}

abbrev root : String
root = generate_job_guid printing "1365733932" "1365733932" 0

build_is_read :
    find_job_guid printing build
    ≡ ok (record {
      job_guid = generate_job_guid printing "1365733932,1365733932" "1365733932,1365733932" 12345;
      coalesced = root ∷ root ∷ [];
    })
unfolding find_job_guid get_property lookup read_endtime read_times times_by_id join_numbers
    coalesced_guids
build_is_read = refl

find_job_guid-CoversAll_example :
    Holds
      (λ g. CoversAll printing g (42 ∷ 42 ∷ []) (("1365733932", 7) ∷ []))
      (find_job_guid printing build)
unfolding get_property
find_job_guid-CoversAll_example =
    find_job_guid-CoversAll printing build (42 ∷ 42 ∷ []) (("1365733932", 7) ∷ []) refl refl

abbrev buildbot : Buildbot
buildbot = record {
  extract_platform_info =
      λ buildername. record { os = "linux"; os_platform = "linux64"; arch = "x86"; vm = false };
  extract_name_info = λ buildername. record {
    name = buildername;
    job_symbol = "B";
    group_name = "build";
    group_symbol = "?";
  };
  get_device_or_unknown = λ name vm. "unknown";
  extract_build_type = λ buildername. "opt";
}

-- the web service knows one revision
abbrev pushed : ResultSet
pushed = record { id = 9; revision_hash = "hash"; active_status = none }

abbrev web : Web
web project revisions = ok (some (("abc", pushed) ∷ []))

abbrev queued : PendingJob
queued = record { id = 42; submitted_at = 7; buildername = "linux build" }

abbrev source : Source PendingJob
source =
    ("central", ("abc", queued ∷ []) ∷ ("def", queued ∷ []) ∷ ("Unknown", queued ∷ []) ∷ [])
    ∷ ("other", ("abc", queued ∷ []) ∷ [])
    ∷ []

pending_is_transformed :
    transform_pending printing buildbot web ("central" ∷ []) source
    ≡ ok (
      (
        "central",
        new_job printing buildbot "central" pushed 42 7 "linux build" "pending" none
              "buildapi_pending"
            ∷ [],
      )
          ∷ [],
      ("central", "def" ∷ []) ∷ [],
    )
unfolding transform_pending lookup_revisions revision_dict revisions_of add_projects add_revisions
    get_resultset in_project missing_revision add_missing add_found add_jobs add_job pending_job
    lookup insert
pending_is_transformed = refl

transform_pending-Delivers_example :
    PendingDelivers printing buildbot source
      (lookup_revisions web (revision_dict ("central" ∷ []) source) [])
      (transform_pending printing buildbot web ("central" ∷ []) source)
transform_pending-Delivers_example =
    transform_pending-Delivers printing buildbot web ("central" ∷ []) source
