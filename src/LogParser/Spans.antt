-- ===== src/LogParser/Spans.antt =====
-- Where the steps of a log begin and end, by the lines alone.
use treeherder_service.Prelude.{
  ℕ, zero, suc, String, ◌≡◌, refl, ap, sym, ◌∙◌, Bool, true, false, Option, none, some, List, [],
  ◌∷◌, ◌++◌, map, length, if◌then◌else◌,
}
use treeherder_service.LogParser.{Env, Match, re_step_start, re_step_finish}
use treeherder_service.LogParser.Steps.{Step, Finish}

abbrev pub is_match : Option Match → Bool
is_match none = false
is_match (some m) = true

-- From the line n on, outside a step or in the step that began at a line: the numbers of the first and
-- of the last line of each step. A step begins at the next line "Started" behind the last step, and
-- ends at the next line "Finished", if there is one.
unfoldable pub scan : Env → Option ℕ → ℕ → List String → List (ℕ × Option ℕ)
scan env none n [] = []
scan env (some a) n [] = (a, none) ∷ []
scan env none n (l ∷ ls) =
    if is_match (env.match_at_start re_step_start l)
    then scan env (some n) (suc n) ls
    else scan env none (suc n) ls
scan env (some a) n (l ∷ ls) =
    if is_match (env.match_at_start re_step_finish l)
    then (a, some n) ∷ scan env none (suc n) ls
    else scan env (some a) (suc n) ls

abbrev pub sections : Env → List String → List (ℕ × Option ℕ)
sections env log = scan env none 0 log

scan_start :
    (env : Env) (n : ℕ) (l : String) (ls : List String) (m : Option Match)
    → env.match_at_start re_step_start l ≡ m
    → scan env none n (l ∷ ls)
      ≡ (if is_match m then scan env (some n) (suc n) ls else scan env none (suc n) ls)
unfolding scan
scan_start env n l ls m e = rw e refl

scan_finish :
    (env : Env) (a n : ℕ) (l : String) (ls : List String) (m : Option Match)
    → env.match_at_start re_step_finish l ≡ m
    → scan env (some a) n (l ∷ ls) ≡ (
        if is_match m then (a, some n) ∷ scan env none (suc n) ls else scan env (some a) (suc n) ls)
unfolding scan
scan_finish env a n l ls m e = rw e refl

-- the first and the last line of a step
abbrev pub last_line : Option Finish → Option ℕ
last_line none = none
last_line (some f) = some f.finished_linenumber

abbrev pub span : Step → ℕ × Option ℕ
span s = (s.started_linenumber, last_line s.finish)

abbrev pub spans : List Step → List (ℕ × Option ℕ)
spans steps = map span steps

pub spans-snoc :
    (steps : List Step) (s : Step) (more : List (ℕ × Option ℕ))
    → spans (steps ++ s ∷ []) ++ more ≡ spans steps ++ span s ∷ more
spans-snoc [] s more = refl
spans-snoc (t ∷ steps) s more = ap (λ l. span t ∷ l) (spans-snoc steps s more)

-- the lines from the line n on
unfoldable pub rest_from : ℕ → List String → List String
rest_from zero ls = ls
rest_from (suc n) [] = []
rest_from (suc n) (l ∷ ls) = rest_from n ls

rest_from-append : (pre rest : List String) → rest_from (length pre) (pre ++ rest) ≡ rest
unfolding rest_from
rest_from-append [] rest = refl
rest_from-append (p ∷ pre) rest = rest_from-append pre rest

rest_from-suc :
    (pre : List String) (l : String) (post : List String)
    → rest_from (suc (length pre)) (pre ++ l ∷ post) ≡ post
unfolding rest_from
rest_from-suc [] l post = refl
rest_from-suc (p ∷ pre) l post = rest_from-suc pre l post

pub rest_from-length : (ls : List String) → rest_from (length ls) ls ≡ []
unfolding rest_from
rest_from-length [] = refl
rest_from-length (l ∷ ls) = rest_from-length ls

-- what is found from the line n on, by the match of that line
abbrev pub begun : Env → List String → Option Match → ℕ → List (ℕ × Option ℕ)
begun env log m n =
    if is_match m
    then scan env (some n) (suc n) (rest_from (suc n) log)
    else scan env none (suc n) (rest_from (suc n) log)

abbrev pub ended : Env → List String → ℕ → Option Match → ℕ → List (ℕ × Option ℕ)
ended env log a m n =
    if is_match m
    then (a, some n) ∷ scan env none (suc n) (rest_from (suc n) log)
    else scan env (some a) (suc n) (rest_from (suc n) log)

-- the lines behind the line n, and from it on
rest_lem :
    (log : List String) (n : ℕ) (pre : List String) (l : String) (post : List String)
    → log ≡ pre ++ l ∷ post
    → n ≡ length pre
    → rest_from n log ≡ l ∷ rest_from (suc n) log
rest_lem log n pre l post d i =
    rw (d, i) (rest_from-append pre (l ∷ post) ∙ ap (λ ls. l ∷ ls) (sym (rest_from-suc pre l post)))

pub started_here :
    (env : Env) (log : List String) (n : ℕ) (pre : List String) (l : String) (post : List String)
    → log ≡ pre ++ l ∷ post
    → n ≡ length pre
    → scan env none n (rest_from n log) ≡ begun env log (env.match_at_start re_step_start l) n
started_here env log n pre l post d i =
    ap (scan env none n) (rest_lem log n pre l post d i)
    ∙ scan_start env n l (rest_from (suc n) log) _ refl

pub finished_here :
    (env : Env) (log : List String) (a n : ℕ) (pre : List String) (l : String) (post : List String)
    → log ≡ pre ++ l ∷ post
    → n ≡ length pre
    → scan env (some a) n (rest_from n log)
      ≡ ended env log a (env.match_at_start re_step_finish l) n
finished_here env log a n pre l post d i =
    ap (scan env (some a) n) (rest_lem log n pre l post d i)
    ∙ scan_finish env a n l (rest_from (suc n) log) _ refl
