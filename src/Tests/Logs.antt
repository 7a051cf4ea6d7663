-- ===== src/Tests/Logs.antt =====
-- The theorems on logs, at concrete inputs.
use text.Mathlib.Text.{starts_with}
use treeherder_service.Prelude.{
  pos, String, ◌≡◌, refl, true, Option, none, some, List, [], ◌∷◌, map, if◌then◌else◌, str_eq,
  take_text, text_length, lookup, insert, has_text, split_text, split_from, strip, rstrip, lstrip,
  distinct, string_eq,
}
use treeherder_service.Json.{
  elements, obj, field, end, arr, str, nil, cons, ok, err, value_error, Holds,
}
use treeherder_service.LogParser.{Env, Match, group, re_step_start, re_step_finish}
use treeherder_service.LogParser.Errors.{ErrorLine, re_err_match, parse_line, add, error_line}
use treeherder_service.LogParser.Steps.{Step}
use treeherder_service.LogParser.Steps
use treeherder_service.LogParser.Header
use treeherder_service.LogParser.Details.{parse_print, parse_talos, on_print}
use treeherder_service.LogParser.Builders.{
  parse, default_builders, build_lines, build_each, build_line, parse_all, parse_with, cut_line,
  gather, add_artifact, entry_size, size_of, get_artifact, artifact_of, step_lists, header_lines,
  detail_list,
}
use treeherder_service.LogParser.Whole.{HasSteps, parse-HasSteps}
use treeherder_service.LogParser.Terms.{
  get_error_search_term, is_helpful_search_term, term_of_tokens, helpful_or, cut_term, leak_or_name,
  base_name, last_part, first_group,
}
use treeherder_service.LogParser.Suggestions.{Service, suggest_all}
use treeherder_service.LogParser.AskedOnce.{Answers, suggest_all-Answers}
use treeherder_service.LogParser.Task.{
  Attempt, artifacts, parse_status, parse_log, EndsAs, parse_log-EndsAs, no_requests,
}

abbrev step_match : Match
step_match = record {
  groups = some "build" ∷ some "0" ∷ some "12:00" ∷ [];
  groupdict = ("name", some "build") ∷ ("result", some "0") ∷ ("timestamp", some "12:00") ∷ [];
}

abbrev when_starts : String → String → Option Match
when_starts line prefix = if starts_with line prefix then some step_match else none

abbrev env : Env
env = record {
  match_at_start = λ pattern line.
      if str_eq pattern re_step_start
      then when_starts line "========= Started"
      else if str_eq pattern re_step_finish
      then when_starts line "========= Finished"
      else if str_eq pattern re_err_match
      then when_starts line "abort:"
      else none;
  search = λ pattern line. none;
  sub = λ pattern replacement line. line;
  loads = λ text. err value_error;
  strptime = λ format text. ok (text_length text);
  int = λ digits. ok 0;
}

abbrev lines : List String
lines =
    "builder: linux\n" ∷ "========= Started build\n" ∷ "all is well\n" ∷ "abort: no repository\n"
    ∷ "========= Finished build\n" ∷ "========= Started test\n" ∷ "abort: no test\n" ∷ []

abbrev no_repository : ErrorLine
no_repository = record { linenumber = 3; line = "abort: no repository" }

abbrev build : Step
build = record {
  name = "build";
  started = "12:00";
  started_linenumber = 1;
  order = 0;
  result = "success";
  errors = no_repository ∷ [];
  finish =
      some
        (record { finished = "12:00"; finished_linenumber = 4; duration = pos 0; error_count = 1 });
}

abbrev test : Step
test = record {
  name = "build";
  started = "12:00";
  started_linenumber = 5;
  order = 1;
  result = "success";
  errors = [];
  finish = none;
}

log_is_parsed :
    parse env lines (default_builders "log" true)
    ≡ ok (
        (
          "Structured Log",
          record {
            logurl = "log";
            entries =
                ("header", header_lines [])
                ∷ ("step_data", step_lists (build ∷ test ∷ []) (no_repository ∷ []))
                ∷ [];
          },
        )
        ∷ ("Job Info", record { logurl = "log"; entries = ("job_details", detail_list []) ∷ [] })
        ∷ [])
unfolding parse build_lines build_each build_line parse_all parse_with cut_line gather add_artifact
    entry_size size_of get_artifact artifact_of Header.parse_line Header.on_header Header.put_value
    Steps.parse_line Steps.in_state Steps.inside_step Steps.outside_step Steps.begin_step
    Steps.end_step Steps.get_duration Steps.duration_of Steps.put_at Steps.result_name parse_line
    add group parse_print parse_talos on_print lookup insert has_text take_text rstrip text_length
    elements
log_is_parsed = refl

parse-HasSteps_example :
    Holds (HasSteps env true (map cut_line lines)) (parse env lines (default_builders "log" true))
parse-HasSteps_example = parse-HasSteps env lines "log" true

abbrev failed_test : String
failed_test = "TEST-UNEXPECTED-FAIL | dom/tests/test_node.html | timed out"

test_is_term : get_error_search_term env failed_test ≡ some "test_node.html"
unfolding get_error_search_term term_of_tokens helpful_or cut_term leak_or_name base_name last_part
    first_group is_helpful_search_term split_text split_from strip rstrip lstrip take_text
    text_length
test_is_term = refl

abbrev service : Service
service term =
    ok (obj (field "open_recent" (arr (cons (str term) nil)) (field "all_others" (arr nil) end)))

-- two errors with one term
suggest_all-Answers_example :
    Holds (Answers env (error_line 1 failed_test ∷ error_line 2 failed_test ∷ [])) (
      suggest_all env service
        (error_line 1 failed_test ∷ error_line 2 failed_test ∷ [])
        no_requests)
unfolding distinct lookup
suggest_all-Answers_example =
    suggest_all-Answers env service (error_line 1 failed_test ∷ error_line 2 failed_test ∷ [])
      no_requests (refl, λ t h. refl)

-- a web service that takes no status "parsed"
-- the status "parsed" cannot be sent, and the retries are used up
abbrev attempt : Attempt
attempt = record {
  retries = 10;
  request = ok tt;
  id = ok tt;
  extracted = ok [];
  send = λ m. elim m [
    | artifacts found ↦ ok tt
    | parse_status s ↦ if str_eq s "parsed" then err value_error else ok tt
  ];
}

parse_log-EndsAs_example : EndsAs attempt (parse_log (some "pending") attempt)
parse_log-EndsAs_example = parse_log-EndsAs (some "pending") attempt refl
