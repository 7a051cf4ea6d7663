-- ===== src/LogParser/Errors.antt =====
-- ErrorParser of treeherder/log_parser/parsers.pyx: which lines of a log are errors.
use treeherder_service.Prelude.{
  ℕ, String, ◌≡◌, Bool, true, false, not, ◌&&◌, ◌||◌, Option, none, some, List, [], ◌∷◌, ◌++◌,
  if◌then◌else◌, exists, has_text, rstrip, arith, append-nil,
}
use treeherder_service.LogParser.{Env, Match}

pub record ErrorLine : Type 0 where
  pub linenumber : ℕ
  pub line : String

abbrev pub in_search_terms : List String
in_search_terms =
    "TEST-UNEXPECTED-" ∷ "fatal error" ∷ "FATAL ERROR" ∷ "PROCESS-CRASH" ∷ "Assertion failure:"
    ∷ "Assertion failed:" ∷ "###!!! ABORT:" ∷ "E/GeckoLinker" ∷ "SUMMARY: AddressSanitizer"
    ∷ "SUMMARY: LeakSanitizer" ∷ "Automation Error:" ∷ "command timed out:" ∷ "wget: unable " ∷ []

abbrev pub re_err_match : String
re_err_match =
    "^error: TEST FAILED|^g?make(?:\\[\\d+\\])?: \\*\\*\\*|^Remote Device Error:|^[A-Za-z.]+Error: |^[A-Za-z.]*Exception: |^remoteFailed:|^rm: cannot |^abort:|^Output exceeded \\d+ bytes|^The web-page 'stop build' button was pressed"

abbrev pub re_err_search : String
re_err_search =
    " error\\(\\d*\\):|:\\d+: error:| error R?C\\d*:|ERROR [45]\\d\\d:|mozmake\\.exe(?:\\[\\d+\\])?: \\*\\*\\*"

abbrev pub re_exclude_1_search : String
re_exclude_1_search = "TEST-(?:INFO|PASS) "

abbrev pub re_exclude_2_search : String
re_exclude_2_search =
    "I[ /](Gecko|Robocop|TestRunner).*TEST-UNEXPECTED-|^TimeoutException: |^ImportError: No module named pygtk$"

abbrev pub re_err_1_match : String
re_err_1_match = "^\\d+:\\d+:\\d+ +(?:ERROR|CRITICAL|FATAL) - "

abbrev pub re_mozharness_prefix : String
re_mozharness_prefix = "^\\d+:\\d+:\\d+ +(?:DEBUG|INFO|WARNING) - +"

-- the truth of a match object
abbrev pub matches : Option Match → Bool
matches none = false
matches (some m) = true

-- ErrorParser.add
unfoldable pub add : String → ℕ → List ErrorLine → List ErrorLine
add line lineno artifact = artifact ++ (record { linenumber = lineno; line = rstrip line }) ∷ []

-- ErrorParser.parse_line, on the parser's artifact
unfoldable pub parse_line : Env → String → ℕ → List ErrorLine → List ErrorLine
unfolding add
parse_line env line lineno artifact =
    if matches (env.search re_exclude_1_search line)
    then artifact
    else if matches (env.match_at_start re_err_1_match line)
    then add line lineno artifact
    else let trimline = env.sub re_mozharness_prefix "" line in
      if matches (env.search re_exclude_2_search trimline)
      then artifact
      else if exists (λ term. has_text term trimline) in_search_terms
          || matches (env.match_at_start re_err_match trimline)
          || matches (env.search re_err_search trimline)
      then add line lineno artifact
      else artifact

-- the reference: a line is an error when nothing excludes it and it has a mark of its own or, behind
-- the prefix, a mark of another program
abbrev has_mark : Env → String → Bool
has_mark env trimline =
    not (matches (env.search re_exclude_2_search trimline))
    && (exists (λ term. has_text term trimline) in_search_terms
        || matches (env.match_at_start re_err_match trimline)
        || matches (env.search re_err_search trimline))

unfoldable pub is_error : Env → String → Bool
is_error env line =
    not (matches (env.search re_exclude_1_search line))
    && (matches (env.match_at_start re_err_1_match line)
        || has_mark env (env.sub re_mozharness_prefix "" line))

abbrev pub error_line : ℕ → String → ErrorLine
error_line n line = record { linenumber = n; line = rstrip line }

pub parse_line_lem :
    (env : Env) (line : String) (n : ℕ) (artifact : List ErrorLine)
    → parse_line env line n artifact
      ≡ artifact ++ (if is_error env line then error_line n line ∷ [] else [])
unfolding parse_line add is_error
parse_line_lem env line n artifact = ground (arith, append-nil artifact)
