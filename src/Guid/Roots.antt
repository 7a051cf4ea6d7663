-- ===== src/Guid/Roots.antt =====
-- The root of an identifier, and its length.
use Prim.Native.Char.{code}
use Prim.Native.String.{◌++◌ as append, [] as empty_text, ◌∷◌ as char_cons}
use text.Mathlib.TextLemmas.{nil-append, cons-append}
use treeherder_service.Prelude.{
  ℕ, zero, suc, ◌+◌, ◌-◌, ◌≤◌, String, ◌≡◌, refl, ap, true, false, arith, ◌==◌, text_length,
  take_text, drop_text, Bool-cases, inl, inr,
}
use treeherder_service.Guid.{
  has_underscore, before_underscore, get_guid_root, last_text, Printing, generate_job_guid,
}

before_underscore-no_underscore : (s : String) → has_underscore (before_underscore s) ≡ false
unfolding has_underscore before_underscore
before_underscore-no_underscore empty_text = refl
before_underscore-no_underscore (char_cons c s) = elim (Bool-cases (code c == b'_')) [
  | inl e ↦ rw e refl
  | inr e ↦ rw (e, e) (before_underscore-no_underscore s)
]

has_underscore-append : (s t : String) → has_underscore (append s (append "_" t)) ≡ true
unfolding has_underscore
has_underscore-append empty_text t = rw (nil-append, cons-append) refl
has_underscore-append (char_cons c s) t = rw cons-append (ground (arith, has_underscore-append s t))

before_underscore-append :
    (s t : String) → has_underscore s ≡ false → before_underscore (append s (append "_" t)) ≡ s
unfolding has_underscore before_underscore
before_underscore-append empty_text t h = rw (nil-append, cons-append) refl
before_underscore-append (char_cons c s) t h = elim (Bool-cases (code c == b'_')) [
  | inl e ↦ cc (rw e at h)
  | inr e ↦ rw (cons-append, e, before_underscore-append s t (rw e at h)) refl
]

-- A root has no suffix of its own: taking the root a second time changes nothing.
get_guid_root_idem : (guid : String) → get_guid_root (get_guid_root guid) ≡ get_guid_root guid
unfolding get_guid_root
get_guid_root_idem guid = elim (Bool-cases (has_underscore guid)) [
  | inl e ↦ rw (e, before_underscore-no_underscore guid) refl
  | inr e ↦ rw (e, e) refl
]

-- For every request and every end time, the root of the identifier made with the end time is the
-- identifier made without one, as long as a hexadecimal digest holds no underscore.
pub get_guid_root-generate_job_guid :
    (p : Printing) (request_id request_time : String) (endtime : ℕ)
    → get_guid_root (generate_job_guid p request_id request_time endtime)
      ≡ generate_job_guid p request_id request_time 0
unfolding get_guid_root generate_job_guid
get_guid_root-generate_job_guid p request_id request_time endtime =
    elim (Bool-cases (endtime == 0)) [
      | inl e ↦ rw (e, p.sha1_hex_digits) refl
      | inr e ↦
          rw
            (
              e,
              has_underscore-append,
              before_underscore-append _ _ (p.sha1_hex_digits (append request_id request_time)),
            )
            refl
    ]

text_length-append : (s t : String) → text_length (append s t) ≡ text_length s + text_length t
unfolding text_length
text_length-append empty_text t = rw nil-append (omega arith)
text_length-append (char_cons c s) t = rw cons-append (omega (arith, text_length-append s t))

text_length-drop_text : (n : ℕ) (s : String) → text_length (drop_text n s) ≡ text_length s - n
unfolding text_length drop_text
text_length-drop_text zero s = omega arith
text_length-drop_text (suc n) empty_text = omega arith
text_length-drop_text (suc n) (char_cons c s) = omega (arith, text_length-drop_text n s)

text_length-last_text : (n : ℕ) (s : String) → text_length (last_text n s) ≤ n
unfolding last_text
text_length-last_text n s = omega (arith, text_length-drop_text (text_length s - n) s)

take_text_of_length : (n : ℕ) (s : String) → text_length s ≤ n → take_text n s ≡ s
unfolding text_length take_text
take_text_of_length zero empty_text h = refl
take_text_of_length zero (char_cons c s) h = absurd (omega arith)
take_text_of_length (suc n) empty_text h = refl
take_text_of_length (suc n) (char_cons c s) h =
    ap (char_cons c) (take_text_of_length n s (omega arith))

text_length-generate_job_guid :
    (p : Printing) (request_id request_time : String) (endtime : ℕ)
    → text_length (generate_job_guid p request_id request_time endtime) ≤ 46
unfolding generate_job_guid text_length
text_length-generate_job_guid p request_id request_time endtime = ground (
  arith,
  p.sha1_length (append request_id request_time),
  text_length-append (p.sha1_hex (append request_id request_time))
      (append "_" (last_text 5 (p.str endtime))),
  text_length-append "_" (last_text 5 (p.str endtime)),
  text_length-last_text 5 (p.str endtime),
)

-- The cut to fifty characters that the loading of a job makes leaves a generated identifier
-- whole, as long as a digest has forty characters.
take_text-generate_job_guid :
    (p : Printing) (request_id request_time : String) (endtime : ℕ)
    → take_text 50 (generate_job_guid p request_id request_time endtime)
      ≡ generate_job_guid p request_id request_time endtime
take_text-generate_job_guid p request_id request_time endtime =
    take_text_of_length 50 _
      (omega (arith, text_length-generate_job_guid p request_id request_time endtime))
