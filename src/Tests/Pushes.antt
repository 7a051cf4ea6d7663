-- ===== src/Tests/Pushes.antt =====
-- The theorem on the push log, at a concrete repository.
use treeherder_service.Prelude.{
  String, ◌≡◌, refl, none, some, Option, [], ◌∷◌, ◌⊎◌, inl, inr, str_eq, if◌then◌else◌, lookup,
  insert,
}
use treeherder_service.Json.{ok, err, value_error}
use treeherder_service.Pushlog.{
  Content, Push, Env, Service, World, Failure, http_error, status, run, extract_from, on_cached,
  on_extracted, on_top, top_revision, push_ids, greatest, load, after_post, transform, result_set,
  add_changes, revision_of, generate_revision_hash, join,
}
use treeherder_service.Pushlog.Progress.{EndsAs, run-EndsAs}
use treeherder_service.Tests.Queue.{printing}

abbrev env : Env
env = record {
  printing = printing;
  int = λ id.
      if str_eq id "5"
      then ok 5
      else if str_eq id "1365733932"
      then ok 1365733932
      else err value_error;
}

abbrev push : String → Push
push node = record {
  date = 9;
  user = "me";
  active_status = none;
  changesets =
      (record { node = node; files = []; author = "you"; branch = "default"; desc = "" }) ∷ [];
}

abbrev content : Content
content = ("1365733932", push "0123456789abcdef") ∷ ("5", push "fedcba9876543210") ∷ []

-- the log does not know the cached push, and the posting is answered with an error
abbrev extract : Option String → Failure ⊎ Content
extract none = inr content
extract (some change) = inl (http_error 404)

abbrev service : Service
service = record { extract = extract; post = λ project result_sets. status 500 }

abbrev world : World
world = record { last_push = some "feedface"; posted = [] }

push_is_seen : (run service env "central" world).1.last_push ≡ some "0123456789abcdef"
unfolding run extract_from on_cached on_extracted on_top top_revision push_ids greatest load
    after_post transform result_set add_changes revision_of generate_revision_hash join lookup
    insert
push_is_seen = refl

run-EndsAs_example : EndsAs service env "central" world (run service env "central" world)
run-EndsAs_example = run-EndsAs service env "central" world
