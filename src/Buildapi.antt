-- ===== src/Buildapi.antt =====
-- treeherder/etl/buildapi.py: the jobs that the build system lists as pending, running and complete.
-- Here, the identifiers of complete jobs.
pub mod Requests
pub mod Additions
pub mod Delivered
pub mod Queued
use Prim.Native.String.{◌++◌ as append}
use treeherder_service.Prelude.{
  ℕ, zero, suc, String, Bool, true, false, Option, none, some, List, [], ◌∷◌, ◌++◌, map,
  if◌then◌else◌, ltb, length, str_eq, lookup, string_eq, nat_eq,
}
use treeherder_service.Json.{Result, ok, err, key_error, ◌>>=◌}
use treeherder_service.Guid.{Printing, generate_job_guid}
use treeherder_service.LogParser.Steps.{result_dict}

-- the times of a build's requests: by the printed id, or one for all
pub data Times : Type 0 where
  by_id : List (String × ℕ) → Times
  single : ℕ → Times

-- what find_job_guid reads of a build and of its properties
pub record Build : Type 0 where
  pub property_request_ids : Option (List ℕ)
  pub property_request_times : Option Times
  pub request_ids : Option (List ℕ)
  pub requesttime : Option Times
  pub result : ℕ
  pub endtime : Option ℕ

pub record GuidData : Type 0 where
  pub job_guid : String
  pub coalesced : List String

abbrev pub or_key_error {ℓ} : {A : Type ℓ} → String → Option A → Result A
or_key_error k none = err (key_error k)
or_key_error k (some v) = ok v

-- `build['properties'].get(k, build[k2])`: the default is read whatever the properties have
unfoldable pub get_property {ℓ} : {A : Type ℓ} → Option A → String → Option A → Result A
get_property property k none = err (key_error k)
get_property none k (some v) = ok v
get_property (some p) k (some v) = ok p

-- `",".join(map(str, ns))`
unfoldable pub join_numbers : Printing → List ℕ → String
join_numbers p [] = ""
join_numbers p (n ∷ []) = p.str n
join_numbers p (n ∷ m ∷ ns) = append (p.str n) (append "," (join_numbers p (m ∷ ns)))

-- `[request_times[str(r)] for r in request_ids]`
unfoldable pub times_by_id : Printing → List (String × ℕ) → List ℕ → Result (List ℕ)
times_by_id p d [] = ok []
times_by_id p d (r ∷ rs) = do
  t ← or_key_error (p.str r) (lookup (p.str r) d)
  ts ← times_by_id p d rs
  ok (t ∷ ts)

-- `request_time_list` and `request_times_str`
unfoldable pub read_times : Printing → Times → List ℕ → Result (List ℕ × String)
unfolding times_by_id join_numbers
read_times p (by_id d) ids = do ts ← times_by_id p d ids; ok (ts, join_numbers p ts)
read_times p (single t) ids = ok ([], p.str t)

-- a guid for each request that has a time
unfoldable pub coalesced_guids : Printing → List ℕ → List ℕ → List String
coalesced_guids p [] ts = []
coalesced_guids p (r ∷ rs) [] = []
coalesced_guids p (r ∷ rs) (t ∷ ts) =
    generate_job_guid p (p.str r) (p.str t) 0 ∷ coalesced_guids p rs ts

unfoldable pub read_endtime : String → Option ℕ → Result ℕ
read_endtime result endtime = if str_eq result "retry" then or_key_error "endtime" endtime else ok 0

unfoldable pub find_job_guid : Printing → Build → Result GuidData
unfolding get_property read_endtime read_times coalesced_guids join_numbers
find_job_guid p b = do
  request_ids ← get_property b.property_request_ids "request_ids" b.request_ids
  request_times ← get_property b.property_request_times "requesttime" b.requesttime
  result ← or_key_error (p.str b.result) (lookup b.result result_dict)
  endtime ← read_endtime result b.endtime
  (time_list, times_str) ← read_times p request_times request_ids
  ok (record {
    job_guid = generate_job_guid p (join_numbers p request_ids) times_str endtime;
    coalesced = if ltb 1 (length request_ids) then coalesced_guids p request_ids time_list else [];
  })
