-- ===== src/LogParser/Builders.antt =====
-- treeherder/log_parser/artifactbuilders.pyx and artifactbuildercollection.pyx: every line of a log
-- goes to every builder, and a builder passes it on to its parsers.
use treeherder_service.Prelude.{
  ℕ, suc, ltb, length, String, Bool, false, not, ◌&&◌, Option, none, some, List, [], ◌∷◌, map,
  if◌then◌else◌, has_text, take_text, text_length, str_eq, lookup, insert, string_eq,
}
use treeherder_service.Json.{
  Json, arr, nil, obj, str, elements, field_names, Result, ok, err, type_error, key_error, ◌>>=◌,
}
use treeherder_service.LogParser.{Env}
use treeherder_service.LogParser.Errors.{ErrorLine}
use treeherder_service.LogParser.Header.{HeaderParser, new_header}
use treeherder_service.LogParser.Header
use treeherder_service.LogParser.Steps.{Step, StepParser, new_steps}
use treeherder_service.LogParser.Steps
use treeherder_service.LogParser.Details.{Detail, parse_print, parse_talos}

-- the classes of parsers, with what each keeps
pub data Parser : Type 0 where
  header : HeaderParser → Parser
  step_data : StepParser → Parser
  job_details : List Detail → Parser
  talos_data : Json → Parser

-- `sp.get_artifact()`
pub data Artifact : Type 0 where
  header_lines : List (String × Option String) → Artifact
  step_lists : List Step → List ErrorLine → Artifact
  detail_list : List Detail → Artifact
  talos_value : Json → Artifact

pub record Builder : Type 0 where
  pub logurl : String
  pub lineno : ℕ
  pub parsers : List Parser
  pub name : String

abbrev pub new_builder : String → List Parser → String → Builder
new_builder url parsers name = record { logurl = url; lineno = 0; parsers = parsers; name = name }

abbrev pub log_view_builder : String → Bool → Builder
log_view_builder url check_errors =
    new_builder url (header new_header ∷ step_data (new_steps check_errors) ∷ []) "Structured Log"

abbrev pub job_builder : String → Builder
job_builder url = new_builder url (job_details [] ∷ []) "Job Info"

abbrev pub performance_builder : String → Builder
performance_builder url = new_builder url (talos_data (arr nil) ∷ []) "talos_data"

abbrev pub is_complete : Parser → Bool
is_complete (header p) = p.complete
is_complete _ = false

-- `parser.parse_line(line, lineno)`
unfoldable pub parse_with : Env → String → ℕ → Parser → Result Parser
parse_with env line n (header p) = Header.parse_line env line p >>= λ q. ok (header q)
parse_with env line n (step_data p) = Steps.parse_line env line n p >>= λ q. ok (step_data q)
parse_with env line n (job_details ds) = parse_print env line ds >>= λ es. ok (job_details es)
parse_with env line n (talos_data v) = parse_talos env line v >>= λ w. ok (talos_data w)

unfoldable pub parse_all : Env → String → ℕ → List Parser → Result (List Parser)
unfolding parse_with
parse_all env line n [] = ok []
parse_all env line n (p ∷ ps) = do
  q ← if is_complete p then ok p else parse_with env line n p
  qs ← parse_all env line n ps
  ok (q ∷ qs)

abbrev pub max_line_length : ℕ
max_line_length = 500

-- lines with data of Talos are not cut
unfoldable pub cut_line : String → String
cut_line line =
    if not (has_text "TALOSDATA" line) && not (has_text "TalosResult" line)
    then take_text max_line_length line
    else line

-- ArtifactBuilderBase.parse_line
unfoldable pub build_line : Env → String → Builder → Result Builder
unfolding parse_all cut_line
build_line env line b = do
  ps ← parse_all env (cut_line line) b.lineno b.parsers
  ok (record b { parsers = ps; lineno = suc b.lineno })

unfoldable pub artifact_of : Parser → String × Artifact
artifact_of (header p) = ("header", header_lines p.artifact)
artifact_of (step_data p) = ("step_data", step_lists p.steps p.all_errors)
artifact_of (job_details ds) = ("job_details", detail_list ds)
artifact_of (talos_data v) = ("talos_data", talos_value v)

-- ArtifactBuilderBase.get_artifact: the entries next to `logurl`
pub record JobArtifact : Type 0 where
  pub logurl : String
  pub entries : List (String × Artifact)

unfoldable pub get_artifact : Builder → JobArtifact
unfolding artifact_of
get_artifact b = record { logurl = b.logurl; entries = map artifact_of b.parsers }

-- ArtifactBuilderCollection: the builders that are used where none are given
abbrev pub default_builders : String → Bool → List Builder
default_builders url check_errors =
    log_view_builder url check_errors ∷ job_builder url ∷ performance_builder url ∷ []

unfoldable pub build_each : Env → String → List Builder → Result (List Builder)
unfolding build_line
build_each env line [] = ok []
build_each env line (b ∷ bs) = do
  c ← build_line env line b
  cs ← build_each env line bs
  ok (c ∷ cs)

unfoldable pub build_lines : Env → List String → List Builder → Result (List Builder)
unfolding build_each
build_lines env [] bs = ok bs
build_lines env (line ∷ lines) bs = do cs ← build_each env line bs; build_lines env lines cs

-- `len` of an artifact
unfoldable pub size_of : Artifact → Result ℕ
size_of (header_lines kvs) = ok (length kvs)
size_of (step_lists ss es) = ok 2
size_of (detail_list ds) = ok (length ds)
size_of (talos_value (arr vs)) = ok (length (elements vs))
size_of (talos_value (obj fs)) = ok (length (field_names fs))
size_of (talos_value (str s)) = ok (text_length s)
size_of (talos_value _) = err type_error

-- `len(artifact[builder.name])`
unfoldable pub entry_size : String → Option Artifact → Result ℕ
unfolding size_of
entry_size name none = err (key_error name)
entry_size name (some a) = size_of a

-- the artifacts so far with that of one more builder; Talos data only where there are any
unfoldable pub add_artifact :
    String → JobArtifact → List (String × JobArtifact) → Result (List (String × JobArtifact))
unfolding entry_size
add_artifact name artifact artifacts =
    if str_eq name "talos_data"
    then (do
      n ← entry_size name (lookup name artifact.entries)
      ok (if ltb 0 n then insert name artifact artifacts else artifacts))
    else ok (insert name artifact artifacts)

unfoldable pub gather :
    List Builder → List (String × JobArtifact) → Result (List (String × JobArtifact))
unfolding get_artifact add_artifact
gather [] artifacts = ok artifacts
gather (b ∷ bs) artifacts = add_artifact b.name (get_artifact b) artifacts >>= gather bs

-- ArtifactBuilderCollection.parse, on the lines of the log
unfoldable pub parse : Env → List String → List Builder → Result (List (String × JobArtifact))
unfolding build_lines gather
parse env lines builders = do bs ← build_lines env lines builders; gather bs []
