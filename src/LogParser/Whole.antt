-- ===== src/LogParser/Whole.antt =====
-- What ArtifactBuilderCollection.parse makes of a whole log.
use treeherder_service.Prelude.{
  ℕ, suc, String, ◌≡◌, ◌≢◌, refl, sym, ap, ◌∙◌, subst, Bool, none, some, List, [], ◌∷◌, ◌++◌, map,
  length, ltb, lookup, insert, string_eq, Bool-cases, inl, inr, ◌⊎◌, arith, append_assoc,
  append-nil, ◌<◌, length-append,
}
use treeherder_service.Json.{Holds, Holds-bind, Holds-then}
use treeherder_service.LogParser.{Env}
use treeherder_service.LogParser.Errors.{ErrorLine}
use treeherder_service.LogParser.Steps.{Step, StepParser, st_initial, st_started}
use treeherder_service.LogParser.Sections.{Closed, errors_of_steps}
use treeherder_service.LogParser.Spans.{
  scan, sections, spans, spans-snoc, last_line, rest_from, rest_from-length,
}
use treeherder_service.LogParser.StepsValid.{Sectioned, between, within}
use treeherder_service.LogParser.Builders.{
  Builder, build_lines, cut_line, JobArtifact, step_lists, talos_value, get_artifact, gather, parse,
  default_builders, artifact_of, add_artifact, entry_size, size_of,
}
use treeherder_service.LogParser.Running.{Running, running, line-Running, view}

lines-Running :
    (env : Env) (c : Bool) (log : List String) (url : String) (pre lines : List String) (n : ℕ)
    (bs : List Builder)
    → log ≡ pre ++ map cut_line lines
    → n ≡ length pre
    → Running env c log url n bs
    → Holds (Running env c log url (length log)) (build_lines env lines bs)
unfolding build_lines
lines-Running env c log url pre [] n bs d i r =
    subst (λ k. Running env c log url k bs) (i ∙ ap length (sym (d ∙ append-nil pre))) r
lines-Running env c log url pre (l ∷ lines) n bs d i r =
    Holds-then (Running env c log url (suc n)) _ _ _
      (line-Running env c log url pre l (map cut_line lines) n bs d i r)
      (λ cs q.
        lines-Running env c log url (pre ++ cut_line l ∷ []) lines (suc n) cs
          (d ∙ sym (append_assoc pre (cut_line l ∷ []) (map cut_line lines)))
          (omega (arith, i, length-append pre (cut_line l ∷ []))) q)

-- the steps and the errors of a log: the steps stand where its lines have them, as closed sections, and one that is open at the end, if there
-- is one, with no errors
abbrev pub Parsed : Env → Bool → List String → List Step → List ErrorLine → Type 0
Parsed env c log steps errors =
    (closed : List Step) × (spans steps ≡ sections env log)
    × (errors ≡ errors_of_steps closed)
    × (((steps ≡ closed) × Closed env c log 0 0 closed (length log))
        ⊎ ((s : Step) × (steps ≡ closed ++ s ∷ [])
            × (s.order ≡ length closed)
            × (s.finish ≡ none)
            × (s.errors ≡ [])
            × (s.started_linenumber < length log)
            × Closed env c log 0 0 closed s.started_linenumber))

abbrev pub HasSteps : Env → Bool → List String → List (String × JobArtifact) → Type 0
HasSteps env c log artifacts =
    (a : JobArtifact) × (steps : List Step) × (errors : List ErrorLine) × (lookup "Structured Log"
        artifacts
      ≡ some a)
    × (lookup "step_data" a.entries ≡ some (step_lists steps errors))
    × Parsed env c log steps errors

none_left :
    (env : Env) (n : ℕ) (steps : List Step) → spans steps ++ scan env none n [] ≡ spans steps
unfolding scan
none_left env n steps = append-nil (spans steps)

all_spans :
    (env : Env) (log : List String) (closed steps : List Step) (s : Step)
    → steps ≡ closed ++ s ∷ []
    → s.finish ≡ none
    → sections env log
      ≡ spans closed
        ++ scan env (some s.started_linenumber) (length log) (rest_from (length log) log)
    → spans steps ≡ sections env log
unfolding scan
all_spans env log closed steps s t q y =
    ap spans t
    ∙ sym (append-nil (spans (closed ++ s ∷ [])))
    ∙ spans-snoc closed s []
    ∙ ap (λ x. spans closed ++ (s.started_linenumber, last_line x) ∷ []) q
    ∙ sym (
        y
        ∙ ap (λ ls. spans closed ++ scan env (some s.started_linenumber) (length log) ls)
            (rest_from-length log))

Sectioned-Parsed :
    (env : Env) (c : Bool) (log : List String) (p : StepParser)
    → Sectioned env c log (length log) p
    → Parsed env c log p.steps p.all_errors
Sectioned-Parsed env c log p (between _ k steps errors st h a e v y) = (
  steps,
  sym (
      y
      ∙ ap (λ ls. spans steps ++ scan env none (length log) ls) (rest_from-length log)
      ∙ none_left env (length log) steps),
  e,
  inl (refl, v),
)
Sectioned-Parsed env c log p (within _ k steps closed s errors sub t a o q r h e u v y) =
    (closed, all_spans env log closed steps s t q y, e, inr (s, t, o, q, r, h, v))

gather-HasSteps :
    (env : Env) (c : Bool) (log : List String) (url : String) (bs : List Builder)
    → Running env c log url (length log) bs
    → Holds (HasSteps env c log) (gather bs [])
unfolding gather add_artifact entry_size get_artifact artifact_of lookup insert
gather-HasSteps env c log url bs (running _ h p ds v s) =
    let parsed = Sectioned-Parsed env c log p s in
    Holds-then (HasSteps env c log) _ _ _
      (Holds-bind (HasSteps env c log) (size_of (talos_value v)) _ (λ n.
        let a = get_artifact (view url (length log) h p) in
        elim (Bool-cases (ltb 0 n)) [
          | inl e ↦ rw e (a, p.steps, p.all_errors, refl, refl, parsed)
          | inr e ↦ rw e (a, p.steps, p.all_errors, refl, refl, parsed)
        ]))
      (λ found h. h)

not_started_yet : st_initial ≢ st_started
not_started_yet q = subst (λ st. elim st [ st_initial ↦ Unit {0} | _ ↦ ⊥ ]) q tt

-- Without an exception, the artifact of the log viewer has the steps of the log, its lines cut: one step
-- begins at the first line "Started" behind each end of a step, and ends at the next line "Finished", if
-- there is one, and there is no other step. They are numbered in order, each but perhaps the last is closed and in front of the next one, and its
-- errors, which it counts, are those of the lines strictly inside it, or none where errors are not
-- checked. A step that is open at the end has none, and all errors are those of the closed steps.
pub parse-HasSteps :
    (env : Env) (lines : List String) (url : String) (check_errors : Bool)
    → Holds
        (HasSteps env check_errors (map cut_line lines))
        (parse env lines (default_builders url check_errors))
unfolding parse errors_of_steps rest_from
parse-HasSteps env lines url c =
    let log = map cut_line lines in
    Holds-then (Running env c log url (length log)) _ _ _
      (lines-Running env c log url [] lines 0 (default_builders url c) refl refl
        (running 0 _ _ [] _ (between 0 0 [] [] _ not_started_yet refl refl (omega arith) refl)))
      (λ bs r. gather-HasSteps env c log url bs r)
