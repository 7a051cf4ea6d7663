-- ===== src/Pushlog/OnHold.antt =====
-- What a run for a revision without a push log posts.
use Prim.Native.String.{◌++◌ as append}
use treeherder_service.Prelude.{
  ℕ, String, ◌≡◌, refl, Option, none, some, [], ◌∷◌, ◌++◌, inl, take_text,
}
use treeherder_service.Pushlog.{
  Env, Failure, http_error, Service, World, revision_of, generate_revision_hash, load, or_next,
}
use treeherder_service.Pushlog.Missing.{
  missing_push, get_not_found_onhold_push, or_onhold, load_content, run_missing,
}
use treeherder_service.Pushlog.Transformed.{transform_lem}

posted_once :
    (answer : Option Failure) (v : World) → (or_next (answer, v) (none, v)).1.posted ≡ v.posted
posted_once none v = refl
posted_once (some f) v = refl

-- Where there is no push log, one result set is posted: it is on hold, and its only revision is the one
-- that was asked for, cut to twelve characters.
run_missing-onhold :
    (s : Service) (env : Env) (now : ℕ) (source_url repository revision : String) (w : World)
    → s.extract none ≡ inl (http_error 404)
    → (run_missing s env now source_url repository revision w).1.posted
      ≡ w.posted
        ++ (
          repository,
          (record {
            push_timestamp = now;
            revisions =
                (record {
                  revision = take_text 12 revision;
                  files = [];
                  author = "Unknown";
                  branch = "default";
                  comment = append "Pushlog not found at " source_url;
                  repository = repository;
                })
                ∷ [];
            author = "Unknown";
            active_status = "onhold";
            revision_hash = generate_revision_hash env.printing (revision ∷ "default" ∷ []);
          })
              ∷ [],
        )
          ∷ []
unfolding run_missing or_onhold load_content get_not_found_onhold_push load revision_of
run_missing-onhold s env now source_url repository revision w e = rw e (
    rw (transform_lem env repository ("00001", missing_push now source_url revision) [])
      (posted_once _ _))
