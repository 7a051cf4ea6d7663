-- ===== src/Buildapi/Queued.antt =====
-- The transformations of pending and running jobs of treeherder/etl/buildapi.py, with get_resultset of
-- treeherder/etl/common.py: which jobs go to which project, and which revisions are fetched again.
use treeherder_service.Prelude.{
  ℕ, String, Bool, true, false, ◌&&◌, not, Option, none, some, List, [], ◌∷◌, ◌++◌, if◌then◌else◌,
  str_eq, lookup, insert, contains, string_eq,
}
use treeherder_service.Json.{Result, ok, err, index_error, ◌>>=◌}
use treeherder_service.Guid.{Printing, generate_job_guid}

-- an entry of the web service's lookup of revisions
pub record ResultSet : Type 0 where
  pub id : ℕ
  pub revision_hash : String
  pub active_status : Option String

-- for each project, the result sets by revision
abbrev pub RevisionsLookup : Type 0
RevisionsLookup = List (String × List (String × ResultSet))

-- Sets of revisions by project.
abbrev pub Missing : Type 0
Missing = List (String × List String)

abbrev pub or_empty {ℓ} : {A : Type ℓ} → Option (List A) → List A
or_empty none = []
or_empty (some xs) = xs

-- `missing_resultsets[project].add(revision)`
unfoldable pub add_missing : String → String → Missing → Missing
add_missing project revision missing =
    let revisions = or_empty (lookup project missing) in
    insert project (if contains revision revisions then revisions else revisions ++ revision ∷ [])
      missing

-- get_resultset: the result set, or none where it raises KeyError; what it logs is left out
unfoldable pub missing_revision :
    String → String → Option ResultSet → Missing → Option ResultSet × Missing
unfolding add_missing
missing_revision project revision (some resultset) missing = (some resultset, missing)
missing_revision project revision none missing =
    (none, if str_eq revision "Unknown" then missing else add_missing project revision missing)

unfoldable pub in_project :
    String → String → Option (List (String × ResultSet)) → Missing → Option ResultSet × Missing
unfolding missing_revision
in_project project revision none missing = (none, missing)
in_project project revision (some resultset_lookup) missing =
    missing_revision project revision (lookup revision resultset_lookup) missing

unfoldable pub get_resultset :
    RevisionsLookup → String → String → Missing → Option ResultSet × Missing
unfolding in_project
get_resultset revisions_lookup project revision =
    in_project project revision (lookup project revisions_lookup)

-- what treeherder/etl/buildbot.py reads from the name of a builder
pub record Platform : Type 0 where
  pub os : String
  pub os_platform : String
  pub arch : String
  pub vm : Bool

pub record NameInfo : Type 0 where
  pub name : String
  pub job_symbol : String
  pub group_name : String
  pub group_symbol : String

pub record Buildbot : Type 0 where
  pub extract_platform_info : String → Platform
  pub extract_name_info : String → NameInfo
  pub get_device_or_unknown : String → Bool → String
  pub extract_build_type : String → String

-- a job for the web service; the artifacts are the job itself, under a name, and its builder and id
pub record NewJob : Type 0 where
  pub revision_hash : String
  pub resultset_id : ℕ
  pub project : String
  pub job_guid : String
  pub name_info : NameInfo
  pub reference_data_name : String
  pub state : String
  pub submit_timestamp : ℕ
  pub start_timestamp : Option ℕ
  pub build_platform : Platform
  pub machine_platform : Platform
  pub device_name : String
  pub who : String
  pub option : String
  pub artifact_name : String
  pub request_id : ℕ

pub record PendingJob : Type 0 where
  pub id : ℕ
  pub submitted_at : ℕ
  pub buildername : String

pub record RunningJob : Type 0 where
  pub request_ids : List ℕ
  pub submitted_at : ℕ
  pub start_time : ℕ
  pub buildername : String

-- the fields that both kinds of jobs have
unfoldable pub new_job :
    Printing → Buildbot → String → ResultSet → ℕ → ℕ → String → String → Option ℕ → String → NewJob
new_job p b project rs id submitted_at buildername state start artifact_name =
    let platform = b.extract_platform_info buildername in
    let info = b.extract_name_info buildername in
    record {
      revision_hash = rs.revision_hash;
      resultset_id = rs.id;
      project = project;
      job_guid = generate_job_guid p (p.str id) (p.str submitted_at) 0;
      name_info = info;
      reference_data_name = buildername;
      state = state;
      submit_timestamp = submitted_at;
      start_timestamp = start;
      build_platform = platform;
      machine_platform = platform;
      device_name = b.get_device_or_unknown info.name platform.vm;
      who = "unknown";
      option = b.extract_build_type buildername;
      artifact_name = artifact_name;
      request_id = id;
    }

unfoldable pub pending_job : Printing → Buildbot → String → ResultSet → PendingJob → Result NewJob
unfolding new_job
pending_job p b project rs j =
    ok (new_job p b project rs j.id j.submitted_at j.buildername "pending" none "buildapi_pending")

unfoldable pub running_job : Printing → Buildbot → String → ResultSet → RunningJob → Result NewJob
unfolding new_job
running_job p b project rs j = elim j.request_ids [
  | [] ↦ err index_error
  | id ∷ ids ↦ ok (
      new_job p b project rs id j.submitted_at j.buildername "running" (some j.start_time)
        "buildapi_running")
]

-- the jobs of a source, by project and revision
abbrev pub Source {ℓ} : Type ℓ → Type ℓ
Source A = List (String × List (String × List A))

abbrev pub Collections : Type 0
Collections = List (String × List NewJob)

-- the collection of the project with one more job
unfoldable pub add_job : String → NewJob → Collections → Collections
add_job project job cs = insert project (or_empty (lookup project cs) ++ job ∷ []) cs

module _ {ℓ} {A : Type ℓ} (make : String → ResultSet → A → Result NewJob)
    (revisions_lookup : RevisionsLookup) where
  unfoldable pub add_jobs : String → ResultSet → List A → Collections → Result Collections
  unfolding add_job
  add_jobs project rs [] cs = ok cs
  add_jobs project rs (j ∷ js) cs = do
    job ← make project rs j
    add_jobs project rs js (add_job project job cs)

  -- the jobs of one revision: none where there is no result set
  unfoldable pub add_found :
      String → List A → Option ResultSet × Missing → Collections → Result (Collections × Missing)
  unfolding add_jobs
  add_found project jobs (none, missing) cs = ok (cs, missing)
  add_found project jobs (some rs, missing) cs = do
    ds ← add_jobs project rs jobs cs
    ok (ds, missing)

  unfoldable pub add_revisions :
      String → List (String × List A) → Collections × Missing → Result (Collections × Missing)
  unfolding add_found get_resultset
  add_revisions project [] s = ok s
  add_revisions project ((revision, jobs) ∷ revisions) (cs, missing) = do
    s ← add_found project jobs (get_resultset revisions_lookup project revision missing) cs
    add_revisions project revisions s

  unfoldable pub add_projects : Source A → Collections × Missing → Result (Collections × Missing)
  unfolding add_revisions
  add_projects [] s = ok s
  add_projects ((project, revisions) ∷ projects) s = do
    t ← add_revisions project revisions s
    add_projects projects t

-- the first loop: the revisions of the projects that there are
unfoldable pub revisions_of {ℓ} : {A : Type ℓ} → List (String × List A) → List String
revisions_of [] = []
revisions_of ((revision, jobs) ∷ revisions) = revision ∷ revisions_of revisions

abbrev pub is_empty {ℓ} : {A : Type ℓ} → List A → Bool
is_empty [] = true
is_empty (x ∷ xs) = false

unfoldable pub revision_dict {ℓ} :
    {A : Type ℓ} → List String → Source A → List (String × List String)
unfolding revisions_of
revision_dict projects [] = []
revision_dict projects ((project, revisions) ∷ rest) =
    let others = revision_dict projects rest in
    if contains project projects && not (is_empty revisions)
    then (project, revisions_of revisions) ∷ others
    else others

-- `get_remote_content` for the result sets of the set of these revisions of a project: urlopen raises
-- HTTPError and URLError; a status other than 200, or no JSON, is None
abbrev pub Web : Type 0
Web = String → List String → Result (Option (List (String × ResultSet)))

-- `if content`: neither None nor an empty dictionary
abbrev pub add_content :
    String → Option (List (String × ResultSet)) → RevisionsLookup → RevisionsLookup
add_content project none found = found
add_content project (some []) found = found
add_content project (some (e ∷ content)) found = insert project (e ∷ content) found

-- lookup_revisions, from what was found so far
unfoldable pub lookup_revisions :
    Web → List (String × List String) → RevisionsLookup → Result RevisionsLookup
lookup_revisions web [] found = ok found
lookup_revisions web ((project, revisions) ∷ rest) found = do
  content ← web project revisions
  lookup_revisions web rest (add_content project content found)

-- PendingTransformerMixin.transform and RunningTransformerMixin.transform: the collections, and the
-- revisions that are fetched again
unfoldable pub transform_pending :
    Printing → Buildbot → Web → List String → Source PendingJob → Result (Collections × Missing)
unfolding lookup_revisions add_projects revision_dict pending_job
transform_pending p b web projects jobs = do
  revisions_lookup ← lookup_revisions web (revision_dict projects jobs) []
  add_projects (pending_job p b) revisions_lookup jobs ([], [])

unfoldable pub transform_running :
    Printing → Buildbot → Web → List String → Source RunningJob → Result (Collections × Missing)
unfolding lookup_revisions add_projects revision_dict running_job
transform_running p b web projects jobs = do
  revisions_lookup ← lookup_revisions web (revision_dict projects jobs) []
  add_projects (running_job p b) revisions_lookup jobs ([], [])
