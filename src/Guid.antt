-- ===== src/Guid.antt =====
-- treeherder/etl/common.py: the identifiers of jobs. A `retry` job has its end time as a suffix
-- behind the identifier of its request; `get_guid_root` takes the suffix off again.
pub mod Roots
use Prim.Native.Char.{code}
use Prim.Native.String.{◌++◌ as append, [] as empty_text, ◌∷◌ as char_cons}
use text.Mathlib.TextLemmas.{nil-append, cons-append}
use treeherder_service.Prelude.{
  ℕ, zero, suc, ◌+◌, ◌-◌, ◌*◌, ◌/◌, ◌%◌, ◌≤◌, String, ◌≡◌, refl, ap, Bool, true, false, ◌||◌, arith,
  ◌==◌, if◌then◌else◌, text_length, take_text, drop_text, Bool-cases, inl, inr,
}

-- `"_" in s`
unfoldable pub has_underscore : String → Bool
has_underscore empty_text = false
has_underscore (char_cons c s) = code c == b'_' || has_underscore s

-- `s.split("_", 1)[0]`
pub before_underscore : String → String
before_underscore empty_text = empty_text
before_underscore (char_cons c s) =
    let rest = before_underscore s in if code c == b'_' then empty_text else char_cons c rest

unfoldable pub get_guid_root : String → String
unfolding has_underscore before_underscore
get_guid_root guid = if has_underscore guid then before_underscore guid else guid

-- `s[-n:]`: the whole text where it is shorter
last_text : ℕ → String → String
unfolding text_length drop_text
last_text n s = drop_text (text_length s - n) s

-- What the code takes of Python's `hashlib` and of the printing of numbers, `str(n)`.
pub record Printing : Type 0 where
  pub sha1_hex : String → String
  pub str : ℕ → String
  pub sha1_length : (s : String) → text_length (sha1_hex s) ≡ 40
  pub sha1_hex_digits : (s : String) → has_underscore (sha1_hex s) ≡ false

-- The two `update` calls hash the concatenation.
unfoldable pub generate_job_guid : Printing → String → String → ℕ → String
unfolding last_text
generate_job_guid p request_id request_time endtime =
    let job_guid = p.sha1_hex (append request_id request_time) in
    if endtime == 0 then job_guid else append job_guid (append "_" (last_text 5 (p.str endtime)))
