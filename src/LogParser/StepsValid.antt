-- ===== src/LogParser/StepsValid.antt =====
-- StepParser finds the sections of a log: what holds of the parser after each line.
use treeherder_service.Prelude.{
  ℕ, suc, ◌-◌, ◌<◌, String, ◌≡◌, ◌≢◌, refl, sym, ap, ◌∙◌, subst, Bool, true, false, Option, none,
  some, List, [], ◌∷◌, ◌++◌, ltb, length, arith, length-append,
}
use treeherder_service.Json.{Holds, Holds-bind}
use treeherder_service.LogParser.{Env, Match, group, re_step_start, re_step_finish}
use treeherder_service.LogParser.Errors.{ErrorLine, is_error, error_line, parse_line_lem}
use treeherder_service.LogParser.Errors
use treeherder_service.LogParser.Steps.{
  Step, Finish, StepParser, StepState, st_initial, st_started, st_finished, parse_line, in_state,
  inside_step, outside_step, begin_step, end_step, get_duration, result_name,
}
use treeherder_service.LogParser.Sections.{
  errors_between, section_errors, section_errors-neighbours, errors_of_steps, Closed, Closed-le,
  Closed-snoc, errors_of_steps-snoc, get_elem?-snoc, put_at-snoc, errors_between-next,
}
use treeherder_service.LogParser.Spans.{
  scan, sections, spans, spans-snoc, rest_from, begun, ended, started_here, finished_here,
}

-- The parser in front of the line n of a log: between two steps, or within the last one.
pub data Sectioned (env : Env) (c : Bool) (log : List String) : ℕ → StepParser → Type 0 where
  between :
      (n k : ℕ) (steps : List Step) (errors : List ErrorLine) (st : StepState)
      → st ≢ st_started
      → k ≡ length steps
      → errors ≡ errors_of_steps steps
      → Closed env c log 0 0 steps n
      → sections env log ≡ spans steps ++ scan env none n (rest_from n log)
      → Sectioned env c log n (record {
        stepnum = k;
        steps = steps;
        all_errors = errors;
        check_errors = c;
        sub_parser = [];
        state = st;
      })
  within :
      (n k : ℕ) (steps closed : List Step) (s : Step) (errors sub : List ErrorLine)
      → steps ≡ closed ++ s ∷ []
      → k ≡ suc (length closed)
      → s.order ≡ length closed
      → s.finish ≡ none
      → s.errors ≡ []
      → s.started_linenumber < n
      → errors ≡ errors_of_steps closed
      → sub ≡ section_errors env c log s.started_linenumber n
      → Closed env c log 0 0 closed s.started_linenumber
      → sections env log ≡ spans closed ++ scan env (some s.started_linenumber) n (rest_from n log)
      → Sectioned env c log n (record {
        stepnum = k;
        steps = steps;
        all_errors = errors;
        check_errors = c;
        sub_parser = sub;
        state = st_started;
      })

not_started : st_finished ≢ st_started
not_started q = subst (λ st. elim st [ st_finished ↦ Unit {0} | _ ↦ ⊥ ]) q tt

-- the errors of an open section, one line on
next_error :
    (env : Env) (log : List String) (a n : ℕ) (pre : List String) (l : String) (post : List String)
    (sub : List ErrorLine)
    → log ≡ pre ++ l ∷ post
    → n ≡ length pre
    → a < n
    → sub ≡ errors_between env a n 0 log
    → Errors.parse_line env l n sub ≡ errors_between env a (suc n) 0 log
next_error env log a n pre l post sub d i h u =
    let below : ltb a n ≡ true = ground arith in
    rw
      (
        parse_line_lem env l n sub,
        u,
        d,
        errors_between-next env a 0 n pre l post (omega arith),
        below,
      )
      refl

-- a line that neither begins nor ends a step, within one
other_line :
    (env : Env) (c : Bool) (log : List String) (n : ℕ) (pre : List String) (l : String)
    (post : List String) (closed : List Step) (s : Step) (errors sub : List ErrorLine)
    → log ≡ pre ++ l ∷ post
    → n ≡ length pre
    → s.order ≡ length closed
    → s.finish ≡ none
    → s.errors ≡ []
    → s.started_linenumber < n
    → errors ≡ errors_of_steps closed
    → sub ≡ section_errors env c log s.started_linenumber n
    → Closed env c log 0 0 closed s.started_linenumber
    → sections env log
      ≡ spans closed ++ scan env (some s.started_linenumber) (suc n) (rest_from (suc n) log)
    → Holds (Sectioned env c log (suc n)) (
        inside_step env none l n (record {
          stepnum = suc (length closed);
          steps = closed ++ s ∷ [];
          all_errors = errors;
          check_errors = c;
          sub_parser = sub;
          state = st_started;
        }))
unfolding inside_step
other_line env true log n pre l post closed s errors sub d i o q r h e u v y =
    within (suc n) (suc (length closed)) (closed ++ s ∷ []) closed s errors
      (Errors.parse_line env l n sub) refl refl o q r (omega arith) e
      (next_error env log s.started_linenumber n pre l post sub d i h u) v y
other_line env false log n pre l post closed s errors sub d i o q r h e u v y =
    within (suc n) (suc (length closed)) (closed ++ s ∷ []) closed s errors sub refl refl o q r
      (omega arith) e u v y

module _ (env : Env) (c : Bool) (log : List String) where
  outside_lem :
      (m : Option Match) (n : ℕ) (steps : List Step) (errors : List ErrorLine) (st : StepState)
      → sections env log ≡ spans steps ++ begun env log m n
      → st ≢ st_started
      → errors ≡ errors_of_steps steps
      → Closed env c log 0 0 steps n
      → Holds (Sectioned env c log (suc n)) (
          outside_step env m n (record {
            stepnum = length steps;
            steps = steps;
            all_errors = errors;
            check_errors = c;
            sub_parser = [];
            state = st;
          }))
  unfolding outside_step begin_step
  outside_lem none n steps errors st y h e v =
      between (suc n) (length steps) steps errors st h refl e
        (Closed-le env c log 0 0 n (suc n) steps (omega arith) v) y
  outside_lem (some m) n steps errors st y h e v = Holds-bind _ (group "name" m) _ (λ name.
      Holds-bind _ (group "timestamp" m) _ (λ timestamp.
        Holds-bind _ (group "result" m) _ (λ digits. Holds-bind _ (env.int digits) _ (λ result.
          let step : Step = record {
            name = name;
            started = timestamp;
            started_linenumber = n;
            order = length steps;
            result = result_name result;
            errors = [];
            finish = none;
          } in
          within (suc n) (suc (length steps)) (steps ++ step ∷ []) steps step errors [] refl refl
            refl refl refl (omega arith) e (sym (section_errors-neighbours env c log n)) v y))))

  -- the line that ends the last step
  end_lem :
      (m : Match) (n : ℕ) (closed : List Step) (s : Step) (errors sub : List ErrorLine)
      → s.order ≡ length closed
      → s.started_linenumber < n
      → errors ≡ errors_of_steps closed
      → sub ≡ section_errors env c log s.started_linenumber n
      → Closed env c log 0 0 closed s.started_linenumber
      → sections env log ≡ spans closed ++ ended env log s.started_linenumber (some m) n
      → Holds (Sectioned env c log (suc n)) (
          end_step env m n (record {
            stepnum = suc (length closed);
            steps = closed ++ s ∷ [];
            all_errors = errors;
            check_errors = c;
            sub_parser = sub;
            state = st_started;
          }))
  unfolding end_step
  end_lem m n closed s errors sub o l e u v y =
      let last : suc (length closed) - 1 ≡ length closed = omega arith in
      Holds-bind _ (group "timestamp" m) _ (λ timestamp.
        rw (last, get_elem?-snoc closed s)
          (Holds-bind _ (get_duration env s.started timestamp) _ (λ duration.
            let f : Finish = record {
              finished = timestamp;
              finished_linenumber = n;
              duration = duration;
              error_count = length sub;
            } in
            let t : Step = record s { errors = sub; finish = some f } in
            rw (put_at-snoc closed s t) (
              between (suc n) (suc (length closed)) (closed ++ t ∷ []) (errors ++ sub) st_finished
                not_started (sym (omega (arith, length-append closed (t ∷ []))))
                (ap (λ es. es ++ sub) e ∙ sym (errors_of_steps-snoc closed t))
                (Closed-snoc env c log 0 0 (suc n) closed t f refl (omega arith) l (omega arith)
                  refl u v)
                (y ∙ sym (spans-snoc closed t (scan env none (suc n) (rest_from (suc n) log))))))))

  inside_lem :
      (m : Option Match) (n : ℕ) (pre : List String) (l : String) (post : List String)
      (closed : List Step) (s : Step) (errors sub : List ErrorLine)
      → log ≡ pre ++ l ∷ post
      → n ≡ length pre
      → s.order ≡ length closed
      → s.finish ≡ none
      → s.errors ≡ []
      → s.started_linenumber < n
      → errors ≡ errors_of_steps closed
      → sub ≡ section_errors env c log s.started_linenumber n
      → Closed env c log 0 0 closed s.started_linenumber
      → sections env log ≡ spans closed ++ ended env log s.started_linenumber m n
      → Holds (Sectioned env c log (suc n)) (
          inside_step env m l n (record {
            stepnum = suc (length closed);
            steps = closed ++ s ∷ [];
            all_errors = errors;
            check_errors = c;
            sub_parser = sub;
            state = st_started;
          }))
  unfolding inside_step
  inside_lem (some m) n pre l post closed s errors sub d i o q r h e u v y =
      end_lem m n closed s errors sub o h e u v y
  inside_lem none n pre l post closed s errors sub d i o q r h e u v y =
      other_line env c log n pre l post closed s errors sub d i o q r h e u v y

-- One line on, at its place in the log.
pub parse_line-Sectioned :
    (env : Env) (c : Bool) (log : List String) (n : ℕ) (pre : List String) (l : String)
    (post : List String) (p : StepParser)
    → log ≡ pre ++ l ∷ post
    → n ≡ length pre
    → Sectioned env c log n p
    → Holds (Sectioned env c log (suc n)) (parse_line env l n p)
unfolding parse_line in_state
parse_line-Sectioned env c log n pre l post p d i (between _ k steps errors st_started h a e v y) =
    absurd (h refl)
parse_line-Sectioned env c log n pre l post p d i (between _ k steps errors st_initial h a e v y) =
    rw a (
      outside_lem env c log (env.match_at_start re_step_start l) n steps errors st_initial
        (y ∙ ap (λ x. spans steps ++ x) (started_here env log n pre l post d i)) h e v)
parse_line-Sectioned env c log n pre l post p d i (between _ k steps errors st_finished h a e v y) =
    rw a (
      outside_lem env c log (env.match_at_start re_step_start l) n steps errors st_finished
        (y ∙ ap (λ x. spans steps ++ x) (started_here env log n pre l post d i)) h e v)
parse_line-Sectioned env c log n pre l post p d i
      (within _ k steps closed s errors sub t a o q r h e u v y) =
    rw (a, t)
      (inside_lem env c log (env.match_at_start re_step_finish l) n pre l post closed s errors sub d
        i o q r h e u v
        (y
          ∙ ap (λ x. spans closed ++ x)
              (finished_here env log s.started_linenumber n pre l post d i)))
