-- ===== src/LogParser/AskedOnce.antt =====
-- The requests of extract_log_artifacts: one for each term.
use treeherder_service.Prelude.{
  String, ◌≡◌, refl, true, false, Option, none, some, List, [], ◌∷◌, if◌then◌else◌, contains,
  string_eq, lookup, arith, distinct, distinct-snoc, contains-snoc, lookup-insert,
}
use treeherder_service.Json.{Json, Holds, Holds-bind, Holds-then}
use treeherder_service.LogParser.{Env}
use treeherder_service.LogParser.Errors.{ErrorLine}
use treeherder_service.LogParser.Terms.{
  get_error_search_term, get_crash_signature, get_mozharness_substring,
}
use treeherder_service.LogParser.Suggestions.{
  Suggestion, Requests, Service, ask_or, ask, ask_term, lacks_bugs, no_bugs, suggest, suggest_all,
}

-- every term that was sent has an answer among the requested ones, and none was sent twice
abbrev pub AskedOnce : Requests → Type 0
AskedOnce r =
    (distinct r.sent ≡ true)
    × ((t : String) → lookup t r.terms_requested ≡ none → contains t r.sent ≡ false)

abbrev OnceMore {ℓ} : (A : Type ℓ) → A × Requests → Type 0
OnceMore A (a, r) = AskedOnce r

ask_or-AskedOnce :
    (service : Service) (t : String) (o : Option Json) (r : Requests)
    → lookup t r.terms_requested ≡ o
    → AskedOnce r
    → Holds (OnceMore Json) (ask_or service t o r)
unfolding ask_or
ask_or-AskedOnce service t (some bugs) r e h = h
ask_or-AskedOnce service t none r e (d, f) = Holds-bind (OnceMore Json) (service t) _ (λ bugs. (
  distinct-snoc t r.sent (f t e) d,
  λ u g.
      let l = lookup-insert t u bugs r.terms_requested in
      ground (arith, contains-snoc u t r.sent, f u, l),
))

ask_term-AskedOnce :
    (service : Service) (bugs : Json) (o : Option String) (r : Requests)
    → AskedOnce r
    → Holds (OnceMore Json) (ask_term service bugs o r)
unfolding ask_term ask
ask_term-AskedOnce service bugs none r h = h
ask_term-AskedOnce service bugs (some t) r h =
    ask_or-AskedOnce service t (lookup t r.terms_requested) r refl h

abbrev OnceFor : String → Suggestion × Requests → Type 0
OnceFor line (s, r) = (s.search ≡ line) × AskedOnce r

suggest-AskedOnce :
    (env : Env) (service : Service) (line : String) (r : Requests)
    → AskedOnce r
    → Holds (OnceFor line) (suggest env service line r)
unfolding suggest
suggest-AskedOnce env service line r h =
    Holds-then (OnceMore Json) (OnceFor line) _ _
      (ask_term-AskedOnce service no_bugs (get_error_search_term env line) r h)
      (λ (bugs, r1) h1. Holds-bind (OnceFor line) (lacks_bugs bugs) _ (λ lacking.
        let signature = if lacking then get_crash_signature env line else none in
        Holds-then (OnceMore Json) (OnceFor line) _ _
          (ask_term-AskedOnce service bugs signature r1 h1) (λ (more, r2) h2. (refl, h2))))

abbrev pub searches : List Suggestion → List String
searches [] = []
searches (s ∷ ss) = s.search ∷ searches ss

abbrev pub clean_lines : Env → List ErrorLine → List String
clean_lines env [] = []
clean_lines env (e ∷ es) = get_mozharness_substring env e.line ∷ clean_lines env es

abbrev pub Answers : Env → List ErrorLine → List Suggestion × Requests → Type 0
Answers env es (ss, r) = (searches ss ≡ clean_lines env es) × AskedOnce r

-- Where the answers so far are kept and no term was sent twice, each error is answered with one
-- suggestion under its text behind the prefix, in order, and still no term was sent twice.
pub suggest_all-Answers :
    (env : Env) (service : Service) (es : List ErrorLine) (r : Requests)
    → AskedOnce r
    → Holds (Answers env es) (suggest_all env service es r)
unfolding suggest_all
suggest_all-Answers env service [] r h = (refl, h)
suggest_all-Answers env service (e ∷ es) r h =
    let line = get_mozharness_substring env e.line in
    Holds-then (OnceFor line) (Answers env (e ∷ es)) _ _ (suggest-AskedOnce env service line r h)
      (λ (s, r1) (q, h1).
        Holds-then (Answers env es) (Answers env (e ∷ es)) _ _
          (suggest_all-Answers env service es r1 h1) (λ (ss, r2) (p, h2). (cc (q, p), h2)))
