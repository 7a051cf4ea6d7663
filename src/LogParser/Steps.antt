-- ===== src/LogParser/Steps.antt =====
-- StepParser of treeherder/log_parser/parsers.pyx: the steps of a build, with the errors of each.
use treeherder_service.Prelude.{
  ℤ, pos, neg, ℕ, zero, suc, ◌+◌, ◌-◌, ◌/◌, String, Bool, Option, none, some, List, [], ◌∷◌, ◌++◌,
  if◌then◌else◌, leb, length, get_elem?, lookup, nat_eq,
}
use treeherder_service.Json.{Result, ok, err, index_error, ◌>>=◌}
use treeherder_service.LogParser.{Env, Match, group, re_step_start, re_step_finish}
use treeherder_service.LogParser.Errors.{ErrorLine}
use treeherder_service.LogParser.Errors

-- what the line at the end of a step adds to it
pub record Finish : Type 0 where
  pub finished : String
  pub finished_linenumber : ℕ
  pub duration : ℤ
  pub error_count : ℕ

pub record Step : Type 0 where
  pub name : String
  pub started : String
  pub started_linenumber : ℕ
  pub order : ℕ
  pub result : String
  pub errors : List ErrorLine
  pub finish : Option Finish

pub data StepState : Type 0 where
  st_initial st_started st_finished : StepState

-- `stepnum` counts the steps that have begun: it is the attribute of that name and one more, as
-- that begins at -1. `sub_parser` is the artifact of the ErrorParser.
pub record StepParser : Type 0 where
  pub stepnum : ℕ
  pub steps : List Step
  pub all_errors : List ErrorLine
  pub check_errors : Bool
  pub sub_parser : List ErrorLine
  pub state : StepState

abbrev pub new_steps : Bool → StepParser
new_steps check_errors = record {
  stepnum = 0;
  steps = [];
  all_errors = [];
  check_errors = check_errors;
  sub_parser = [];
  state = st_initial;
}

-- treeherder/etl/buildbot.py: `RESULT_DICT`, and `RESULT_DICT.get(n, "unknown")`
abbrev pub result_dict : List (ℕ × String)
result_dict =
    (0, "success")
    ∷ (1, "testfailed")
    ∷ (2, "busted")
    ∷ (3, "skipped")
    ∷ (4, "exception")
    ∷ (5, "retry")
    ∷ (6, "usercancel")
    ∷ []

abbrev or_unknown : Option String → String
or_unknown none = "unknown"
or_unknown (some r) = r

unfoldable pub result_name : ℕ → String
result_name n = or_unknown (lookup n result_dict)

abbrev pub date_format : String
date_format = "%Y-%m-%d %H:%M:%S.%f"

-- `int(round(secs))` of a difference in microseconds: halves are rounded away from zero
abbrev pub seconds : ℕ → ℕ
seconds microseconds = (microseconds + 500000) / 1000000

unfoldable pub duration_of : ℕ → ℕ → ℤ
duration_of start finish =
    if leb start finish then pos (seconds (finish - start)) else neg (seconds (start - finish))

-- set_duration
unfoldable pub get_duration : Env → String → String → Result ℤ
unfolding duration_of
get_duration env started finished = do
  start ← env.strptime date_format started
  finish ← env.strptime date_format finished
  ok (duration_of start finish)

-- the match of a line that starts a step
unfoldable pub begin_step : Env → Match → ℕ → StepParser → Result StepParser
unfolding result_name
begin_step env m lineno p = do
  name ← group "name" m
  timestamp ← group "timestamp" m
  digits ← group "result" m
  result ← env.int digits
  ok (record p {
    state = st_started;
    stepnum = suc p.stepnum;
    steps =
        p.steps
        ++ (record {
          name = name;
          started = timestamp;
          started_linenumber = lineno;
          order = p.stepnum;
          result = result_name result;
          errors = [];
          finish = none;
        })
          ∷ [];
  })

-- `self.steps[self.stepnum]`
abbrev pub or_index_error {ℓ} : {A : Type ℓ} → Option A → Result A
or_index_error none = err index_error
or_index_error (some s) = ok s

unfoldable pub put_at {ℓ} : {A : Type ℓ} → ℕ → A → List A → List A
put_at n a [] = []
put_at zero a (x ∷ xs) = a ∷ xs
put_at (suc n) a (x ∷ xs) = x ∷ put_at n a xs

-- the match of a line that ends the current step
unfoldable pub end_step : Env → Match → ℕ → StepParser → Result StepParser
unfolding get_duration put_at
end_step env m lineno p = do
  timestamp ← group "timestamp" m
  step ← or_index_error (get_elem? p.steps (p.stepnum - 1))
  duration ← get_duration env step.started timestamp
  ok (record p {
    state = st_finished;
    steps =
        put_at (p.stepnum - 1)
          (record step {
            errors = p.sub_parser;
            finish = some (record {
              finished = timestamp;
              finished_linenumber = lineno;
              duration = duration;
              error_count = length p.sub_parser;
            });
          })
          p.steps;
    all_errors = p.all_errors ++ p.sub_parser;
    sub_parser = [];
  })

unfoldable pub outside_step : Env → Option Match → ℕ → StepParser → Result StepParser
unfolding begin_step
outside_step env none lineno p = ok p
outside_step env (some m) lineno p = begin_step env m lineno p

unfoldable pub inside_step : Env → Option Match → String → ℕ → StepParser → Result StepParser
unfolding end_step
inside_step env (some m) line lineno p = end_step env m lineno p
inside_step env none line lineno p =
    if p.check_errors
    then ok (record p { sub_parser = Errors.parse_line env line lineno p.sub_parser })
    else ok p

unfoldable pub in_state : StepState → Env → String → ℕ → StepParser → Result StepParser
unfolding outside_step inside_step
in_state st_started env line lineno p =
    inside_step env (env.match_at_start re_step_finish line) line lineno p
in_state _ env line lineno p = outside_step env (env.match_at_start re_step_start line) lineno p

unfoldable pub parse_line : Env → String → ℕ → StepParser → Result StepParser
unfolding in_state
parse_line env line lineno p = in_state p.state env line lineno p
