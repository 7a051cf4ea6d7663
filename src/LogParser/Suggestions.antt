-- ===== src/LogParser/Suggestions.antt =====
-- extract_log_artifacts of treeherder/log_parser/utils.py: the artifacts of a log, and for each of its
-- errors the bugs that may be its cause. A term is asked for once.
use treeherder_service.Prelude.{
  String, Bool, true, false, not, ◌||◌, Option, none, some, List, [], ◌∷◌, ◌++◌, length,
  if◌then◌else◌, string_eq, lookup, insert, str_eq, ltb,
}
use treeherder_service.Json.{
  Json, null, bool, num, str, arr, obj, nil, field, end, elements, field_names, Result, ok, ◌>>=◌,
  get_item,
}
use treeherder_service.LogParser.{Env}
use treeherder_service.LogParser.Errors.{ErrorLine}
use treeherder_service.LogParser.Terms.{
  get_error_search_term, get_crash_signature, get_mozharness_substring,
}

-- the truth of a value
unfoldable pub truth : Json → Bool
truth null = false
truth (bool b) = b
truth (num n) = ltb 0 n
truth (str s) = not (str_eq s "")
truth (arr vs) = ltb 0 (length (elements vs))
truth (obj fs) = ltb 0 (length (field_names fs))

pub record Suggestion : Type 0 where
  pub search : String
  pub bugs : Json

-- `terms_requested`, and the requests that were sent, in their order
pub record Requests : Type 0 where
  pub terms_requested : List (String × Json)
  pub sent : List String

-- `get_bugs_for_search_term`: a request to the list of bugs
abbrev pub Service : Type 0
Service = String → Result Json

-- the answer to a term, from the earlier answers where it was requested before
unfoldable pub ask_or : Service → String → Option Json → Requests → Result (Json × Requests)
ask_or service term (some bugs) r = ok (bugs, r)
ask_or service term none r = do
  bugs ← service term
  ok (
    bugs,
    record { terms_requested = insert term bugs r.terms_requested; sent = r.sent ++ term ∷ [] },
  )

unfoldable pub ask : Service → String → Requests → Result (Json × Requests)
unfolding ask_or
ask service term r = ask_or service term (lookup term r.terms_requested) r

-- the answer to a term, if there is a term
unfoldable pub ask_term : Service → Json → Option String → Requests → Result (Json × Requests)
unfolding ask
ask_term service bugs none r = ok (bugs, r)
ask_term service bugs (some term) r = ask service term r

-- `bugs['open_recent'] or bugs['all_others']`
unfoldable pub has_bugs : Json → Result Bool
unfolding truth
has_bugs bugs = do
  open_recent ← get_item "open_recent" bugs
  all_others ← if truth open_recent then ok open_recent else get_item "all_others" bugs
  ok (truth open_recent || truth all_others)

-- `not bugs or not (…)`
unfoldable pub lacks_bugs : Json → Result Bool
unfolding has_bugs truth
lacks_bugs bugs = if not (truth bugs) then ok true else has_bugs bugs >>= λ found. ok (not found)

abbrev pub no_bugs : Json
no_bugs = obj (field "open_recent" (arr nil) (field "all_others" (arr nil) end))

-- one turn of the loop over the errors
unfoldable pub suggest : Env → Service → String → Requests → Result (Suggestion × Requests)
unfolding ask_term lacks_bugs
suggest env service clean_line r = do
  (bugs, r1) ← ask_term service no_bugs (get_error_search_term env clean_line) r
  lacking ← lacks_bugs bugs
  (more, r2) ←
      ask_term service bugs (if lacking then get_crash_signature env clean_line else none) r1
  ok (record { search = clean_line; bugs = more }, r2)

unfoldable pub suggest_all :
    Env → Service → List ErrorLine → Requests → Result (List Suggestion × Requests)
unfolding suggest
suggest_all env service [] r = ok ([], r)
suggest_all env service (e ∷ es) r = do
  (s, r1) ← suggest env service (get_mozharness_substring env e.line) r
  (ss, r2) ← suggest_all env service es r1
  ok (s ∷ ss, r2)
