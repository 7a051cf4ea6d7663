-- ===== src/Pushlog/Missing.antt =====
-- MissingHgPushlogProcess of treeherder/etl/pushlog.py, and get_not_found_onhold_push of
-- treeherder/etl/common.py. The clock is a parameter.
use Prim.Native.String.{◌++◌ as append}
use treeherder_service.Prelude.{
  ℕ, String, Option, none, some, [], ◌∷◌, ◌⊎◌, inl, inr, ◌==◌, if◌then◌else◌,
}
use treeherder_service.Json.{assertion_error}
use treeherder_service.Pushlog.{
  Push, Content, Env, Failure, http_error, error, Service, World, load, transform,
}

abbrev pub missing_push : ℕ → String → String → Push
missing_push now url revision = record {
  date = now;
  user = "Unknown";
  active_status = some "onhold";
  changesets =
      (record {
        node = revision;
        files = [];
        author = "Unknown";
        branch = "default";
        desc = append "Pushlog not found at " url;
      })
      ∷ [];
}

unfoldable pub get_not_found_onhold_push : ℕ → String → String → Content
get_not_found_onhold_push now url revision = ("00001", missing_push now url revision) ∷ []

-- extract: the answer 404 is replaced
unfoldable pub or_onhold : ℕ → String → String → Failure ⊎ Content → Failure ⊎ Content
unfolding get_not_found_onhold_push
or_onhold now url revision (inl (http_error n)) =
    if n == 404 then inr (get_not_found_onhold_push now url revision) else inl (http_error n)
or_onhold now url revision (inl (error e)) = inl (error e)
or_onhold now url revision (inr content) = inr content

unfoldable pub load_content :
    Service → Env → String → Failure ⊎ Content → World → Option Failure × World
unfolding load transform
load_content s env repository (inl f) w = (some f, w)
load_content s env repository (inr []) w = (some (error assertion_error), w)
load_content s env repository (inr (p ∷ content)) w =
    load s (transform env repository (p ∷ content) []) w

-- MissingHgPushlogProcess.run, which raises every exception again
unfoldable pub run_missing :
    Service → Env → ℕ → String → String → String → World → Option Failure × World
unfolding load_content or_onhold
run_missing s env now source_url repository revision w =
    load_content s env repository (or_onhold now source_url revision (s.extract none)) w
