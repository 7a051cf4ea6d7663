-- ===== src/Tests/Queue.antt =====
-- The theorems on the object store, on identifiers and on retries, at concrete inputs.
use Prim.{tt}
use treeherder_service.Prelude.{
  ℕ, zero, suc, text_length, ◌<◌, String, ◌≡◌, ◌≢◌, refl, false, none, some, List, [], ◌∷◌, arith,
  inl, tally,
}
use treeherder_service.Json.{Json, Fields}
use treeherder_service.Guid.{Printing, has_underscore, generate_job_guid, get_guid_root}
use treeherder_service.Guid.Roots.{get_guid_root-generate_job_guid}
use treeherder_service.Objectstore.{
  Row, Store, ready, loading, complete, Placeholder, Runtime, empty, store_job_data, claim_objects,
  claimable,
}
use treeherder_service.Objectstore.Schedule.{Op, submit, load, finish, fail, cycle, run, run_all}
use treeherder_service.Objectstore.Rows.{row_at}
use treeherder_service.Objectstore.Valid.{IsValid, empty-IsValid, run_all-IsValid}
use treeherder_service.Objectstore.Claims.{due, claim_objects_lem}
use treeherder_service.Objectstore.Ownership.{run_all-settled, finish-after_others}
use treeherder_service.Objectstore.Submission.{Appends, store_job_data-Appends}
use treeherder_service.Retry.{
  Outcome, returned, operational_error, retry_execute, retry_execute_lem,
}

abbrev held : Row
held = record {
  id = 1;
  job_guid = "a1";
  revision_hash = none;
  loaded_timestamp = 10;
  processed_state = loading;
  error = false;
  error_msg = none;
  json_blob = "{}";
  worker_id = some 7;
}

abbrev done : Row
done = record held { processed_state = complete }

abbrev waiting : Row
waiting = record held { id = 2; job_guid = "b2"; processed_state = ready; worker_id = none }

abbrev store : Store
store = record { rows = held ∷ waiting ∷ []; next_id = 3 }

abbrev submission : Placeholder
submission = record {
  loaded_timestamp = 11;
  job_guid = "c3";
  json_blob = "{}";
  error = false;
  error_msg = "N";
}

abbrev others : List Op
others =
    load 8 5 ∷ submit submission ∷ finish 8 "rev" 1 ∷ fail 9 1 "broken" ∷ cycle ("z9" ∷ []) ∷ []

finish-after_others_example :
    row_at 1 (run (finish 7 "rev" 1) (run_all others store)).rows
    ≡ some (record held { processed_state = complete; revision_hash = some "rev" })
unfolding row_at
finish-after_others_example =
    finish-after_others others store 7 1 "rev" held
      (omega arith, (tt, (omega arith, (omega arith, (tt, tt))))) refl refl refl

run_all-settled_example :
    row_at 1 (run_all others (record { rows = done ∷ waiting ∷ []; next_id = 3 })).rows ≡ some done
unfolding row_at
run_all-settled_example =
    run_all-settled others (record { rows = done ∷ waiting ∷ []; next_id = 3 }) 1 done refl refl
      refl

run_all-IsValid_example :
    IsValid (run_all (submit submission ∷ load 7 1 ∷ cycle ("c3" ∷ []) ∷ []) empty)
run_all-IsValid_example =
    run_all-IsValid (submit submission ∷ load 7 1 ∷ cycle ("c3" ∷ []) ∷ []) empty empty-IsValid

claim_objects_example :
    tally claimable (claim_objects 7 1 store).0 ≡ tally claimable (due 7 1 store.rows)
claim_objects_example = claim_objects_lem claimable 7 1 store

-- texts are stored as they are, numbers by their digits, and null as no text
abbrev column : Json → String
column (Json.str s) = s
column (Json.num n) = "42"
column _ = ""

abbrev runtime : Runtime
runtime = record { dumps = λ j. "{}"; column = column; message = λ e. "error"; now = 12 }

abbrev job_json : Json
job_json =
    Json.obj (
      Fields.field "job" (Json.obj (Fields.field "job_guid" (Json.str "d4") Fields.end)) Fields.end)

store_job_data-Appends_example :
    Appends
      (some "no revision")
      store
      (store_job_data runtime (job_json ∷ Json.null ∷ []) (some "no revision") store).1
store_job_data-Appends_example =
    store_job_data-Appends runtime (job_json ∷ Json.null ∷ []) (some "no revision") store

abbrev pub digest : String
digest = "0123456789012345678901234567890123456789"

pub digest_length : text_length digest ≡ 40
unfolding text_length
digest_length = refl

pub digest_plain : has_underscore digest ≡ false
unfolding has_underscore
digest_plain = refl

abbrev pub printing : Printing
printing = record {
  sha1_hex = λ s. digest;
  str = λ n. "1365733932";
  sha1_length = λ s. digest_length;
  sha1_hex_digits = λ s. digest_plain;
}

get_guid_root-generate_job_guid_example :
    get_guid_root (generate_job_guid printing "42" "1365732271" 1365733932)
    ≡ generate_job_guid printing "42" "1365732271" 0
get_guid_root-generate_job_guid_example =
    get_guid_root-generate_job_guid printing "42" "1365732271" 1365733932

-- a call that is broken twice
abbrev execute : ℕ → Outcome ℕ
execute zero = operational_error
execute (suc zero) = operational_error
execute (suc (suc n)) = returned 5

broken_twice : (i : ℕ) → i < 2 → execute i ≡ operational_error
broken_twice zero h = refl
broken_twice (suc zero) h = refl
broken_twice (suc (suc i)) h = absurd (omega (arith, h))

is_returned : execute 2 ≢ operational_error
is_returned e = cc

retry_execute_example : retry_execute execute 0 ≡ execute 2
retry_execute_example = retry_execute_lem execute 2 (omega arith) broken_twice (inl is_returned)
