-- ===== src/LogParser/Task.antt =====
-- extract_log_artifacts of treeherder/log_parser/utils.py and the task parse_log of
-- treeherder/log_parser/tasks.py.
use treeherder_service.Prelude.{
  ℕ, ltb, ◌⊎◌, inl, inr, Bool-cases, String, ◌≡◌, refl, Bool, true, false, Option, none, some, List,
  [], ◌∷◌, ◌++◌, if◌then◌else◌, str_eq, lookup, string_eq, exists,
}
use treeherder_service.Json.{PyError, Result, ok, err, unbound_local_error, ◌>>=◌}
use treeherder_service.LogParser.{Env}
use treeherder_service.LogParser.Errors.{ErrorLine}
use treeherder_service.LogParser.Builders.{
  Artifact, step_lists, JobArtifact, parse, default_builders,
}
use treeherder_service.LogParser.Suggestions.{Suggestion, Requests, Service, suggest_all}

-- `json.dumps` on the two kinds of values
pub record Dumps : Type 0 where
  pub artifact : JobArtifact → String
  pub suggestions : List Suggestion → String

pub record LogArtifact : Type 0 where
  pub job_guid : String
  pub name : String
  pub type : String
  pub blob : String

-- `artifacts.get('Structured Log', {}).get('step_data', {}).get('all_errors', [])`
unfoldable pub errors_in : Option Artifact → List ErrorLine
errors_in (some (step_lists steps all_errors)) = all_errors
errors_in _ = []

unfoldable pub errors_of : Option JobArtifact → List ErrorLine
unfolding errors_in
errors_of none = []
errors_of (some a) = errors_in (lookup "step_data" a.entries)

unfoldable pub log_artifacts : Dumps → String → List (String × JobArtifact) → List LogArtifact
log_artifacts dumps guid [] = []
log_artifacts dumps guid ((name, a) ∷ rest) =
    (record { job_guid = guid; name = name; type = "json"; blob = dumps.artifact a })
    ∷ log_artifacts dumps guid rest

abbrev pub no_requests : Requests
no_requests = record { terms_requested = []; sent = [] }

-- the log's lines are those that its address gives
unfoldable pub extract_log_artifacts :
    Env
    → Dumps
    → Service
    → (String → Result (List String))
    → String
    → String
    → Bool
    → Result (List LogArtifact)
unfolding log_artifacts errors_of
extract_log_artifacts env dumps service open_log log_url job_guid check_errors = do
  lines ← open_log log_url
  artifacts ← parse env lines (default_builders log_url check_errors)
  (suggestions, requests) ←
      suggest_all env service
        (if check_errors then errors_of (lookup "Structured Log" artifacts) else []) no_requests
  ok (
      log_artifacts dumps job_guid artifacts
      ++ (record {
        job_guid = job_guid;
        name = "Bug suggestions";
        type = "json";
        blob = dumps.suggestions suggestions;
      })
        ∷ [])

-- what is sent to the web service
pub data Sent : Type 0 where
  artifacts : List LogArtifact → Sent
  parse_status : String → Sent

-- how the task ends
pub data Ending : Type 0 where
  returned retried : Ending
  raised : PyError → Ending

-- `max_retries` of the task
abbrev pub max_retries : ℕ
max_retries = 10

-- How often the task was retried before, and its steps that may raise: the credentials and the request
-- object made of them, `job_log_url['id']`, the artifacts of the log at `job_log_url['url']`, and each
-- message, which is sent or not.
pub record Attempt : Type 0 where
  pub retries : ℕ
  pub request : Result (Unit {0})
  pub id : Result (Unit {0})
  pub extracted : Result (List LogArtifact)
  pub send : Sent → Result (Unit {0})

abbrev pub or_pending : Option String → String
or_pending none = "pending"
or_pending (some s) = s

-- the messages that arrived so far, and the message, if it arrives
unfoldable pub deliver : Attempt → Sent → List Sent → Result (List Sent)
deliver a m sent = a.send m >>= λ _. ok (sent ++ m ∷ [])

-- the message of the handler of the exception x: behind it `retry(exc=x)` raises x itself once the
-- retries are used up
unfoldable pub on_failed : Attempt → PyError → List Sent → Result (List Sent) → List Sent × Ending
on_failed a x sent (ok all) = (all, if ltb a.retries max_retries then retried else raised x)
on_failed a x sent (err e) = (sent, raised e)

unfoldable pub handle : Attempt → PyError → List Sent → List Sent × Ending
unfolding on_failed deliver
handle a x sent = on_failed a x sent (deliver a (parse_status "failed") sent)

unfoldable pub on_status : Attempt → List Sent → Result (List Sent) → List Sent × Ending
unfolding handle
on_status a sent (ok all) = (all, returned)
on_status a sent (err x) = handle a x sent

unfoldable pub on_post : Attempt → Result (List Sent) → List Sent × Ending
unfolding on_status handle deliver
on_post a (ok sent) = on_status a sent (deliver a (parse_status "parsed") sent)
on_post a (err x) = handle a x []

unfoldable pub on_extracted : Attempt → Result (List LogArtifact) → List Sent × Ending
unfolding on_post handle deliver
on_extracted a (ok found) = on_post a (deliver a (artifacts found) [])
on_extracted a (err x) = handle a x []

-- where there is no request object, `req` is not bound in the handler, and where there is no id,
-- `update_endpoint` is not
unfoldable pub on_request : Attempt → Result (Unit {0}) → Result (Unit {0}) → List Sent × Ending
unfolding on_extracted
on_request a (ok u) (ok v) = on_extracted a a.extracted
on_request a (ok u) (err e) = ([], raised unbound_local_error)
on_request a (err e) id = ([], raised unbound_local_error)

-- the messages that arrive, and how the task ends
unfoldable pub parse_log : Option String → Attempt → List Sent × Ending
unfolding on_request
parse_log status a =
    if str_eq (or_pending status) "parsed" then ([], returned) else on_request a a.request a.id

abbrev pub is_status : Sent → Bool
is_status (parse_status s) = true
is_status (artifacts found) = false

-- the exception that the handler gets
abbrev pub Fails : Attempt → PyError → Type 0
Fails a x = (a.extracted ≡ err x) ⊎ ((m : Sent) × (a.send m ≡ err x))

-- how a task for a log that was not parsed ends
pub data EndsAs (a : Attempt) : List Sent × Ending → Type 0 where
  parsed :
      (found : List LogArtifact)
      → a.extracted ≡ ok found
      → EndsAs a (artifacts found ∷ parse_status "parsed" ∷ [], returned)
  again :
      (x : PyError) (before : List Sent)
      → Fails a x
      → exists is_status before ≡ false
      → ltb a.retries max_retries ≡ true
      → EndsAs a (before ++ parse_status "failed" ∷ [], retried)
  exhausted :
      (x : PyError) (before : List Sent)
      → Fails a x
      → exists is_status before ≡ false
      → ltb a.retries max_retries ≡ false
      → EndsAs a (before ++ parse_status "failed" ∷ [], raised x)
  unsent :
      (x e : PyError) (before : List Sent)
      → Fails a x
      → a.send (parse_status "failed") ≡ err e
      → exists is_status before ≡ false
      → EndsAs a (before, raised e)
  unbound :
      (e : PyError)
      → (a.request ≡ err e) ⊎ (a.id ≡ err e)
      → EndsAs a ([], raised unbound_local_error)

failed-EndsAs :
    (a : Attempt) (x : PyError) (before : List Sent)
    → Fails a x
    → exists is_status before ≡ false
    → EndsAs a (handle a x before)
unfolding handle on_failed deliver
failed-EndsAs a x before f h = go (a.send (parse_status "failed")) refl
  where
    go :
        (r : Result (Unit {0}))
        → a.send (parse_status "failed") ≡ r
        → EndsAs a (on_failed a x before (r >>= λ _. ok (before ++ parse_status "failed" ∷ [])))
    go (err e) q = unsent x e before f q h
    go (ok u) q = elim (Bool-cases (ltb a.retries max_retries)) [
      | inl l ↦ rw l (again x before f h l)
      | inr l ↦ rw l (exhausted x before f h l)
    ]

status-EndsAs :
    (a : Attempt) (found : List LogArtifact) (r : Result (Unit {0}))
    → a.extracted ≡ ok found
    → a.send (parse_status "parsed") ≡ r
    → EndsAs a (
        on_status a
          (artifacts found ∷ [])
          (r >>= λ _. ok (artifacts found ∷ parse_status "parsed" ∷ [])))
unfolding on_status
status-EndsAs a found (ok u) x q = parsed found x
status-EndsAs a found (err e) x q =
    failed-EndsAs a e (artifacts found ∷ []) (inr (parse_status "parsed", q)) refl

post-EndsAs :
    (a : Attempt) (found : List LogArtifact) (r : Result (Unit {0}))
    → a.extracted ≡ ok found
    → a.send (artifacts found) ≡ r
    → EndsAs a (on_post a (r >>= λ _. ok (artifacts found ∷ [])))
unfolding on_post deliver
post-EndsAs a found (ok u) x q = status-EndsAs a found (a.send (parse_status "parsed")) x refl
post-EndsAs a found (err e) x q = failed-EndsAs a e [] (inr (artifacts found, q)) refl

extracted-EndsAs :
    (a : Attempt) (r : Result (List LogArtifact)) → a.extracted ≡ r → EndsAs a (on_extracted a r)
unfolding on_extracted deliver
extracted-EndsAs a (ok found) x = post-EndsAs a found (a.send (artifacts found)) x refl
extracted-EndsAs a (err e) x = failed-EndsAs a e [] (inl x) refl

request-EndsAs :
    (a : Attempt) (r id : Result (Unit {0}))
    → a.request ≡ r
    → a.id ≡ id
    → EndsAs a (on_request a r id)
unfolding on_request
request-EndsAs a (ok u) (ok v) q w = extracted-EndsAs a a.extracted refl
request-EndsAs a (ok u) (err e) q w = unbound e (inr w)
request-EndsAs a (err e) id q w = unbound e (inl q)

-- A task for a log that was not parsed returns when the artifacts of the log and then the status
-- "parsed" were sent. Where the extraction or a message raises, the status "failed" is the last message
-- and the only status, and the task is retried if it was retried less than ten times, and raises that
-- exception if not; or the sending of that status raises, no status was sent, and the task raises what
-- the sending raised. Without a request object or an id it raises UnboundLocalError and sends nothing.
pub parse_log-EndsAs :
    (status : Option String) (a : Attempt)
    → str_eq (or_pending status) "parsed" ≡ false
    → EndsAs a (parse_log status a)
unfolding parse_log
parse_log-EndsAs status a h = rw h (request-EndsAs a a.request a.id refl refl)
