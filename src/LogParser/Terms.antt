-- ===== src/LogParser/Terms.antt =====
-- treeherder/log_parser/utils.py: the terms by which bugs are looked for, one for each line of errors.
use treeherder_service.Prelude.{
  ◌≤◌, String, ◌≡◌, refl, Bool, true, not, ◌&&◌, inl, inr, Option, none, some, List, [], ◌∷◌,
  if◌then◌else◌, ltb, contains, string_eq, str_eq, take_text, text_length, text_length-take, strip,
  split_text, Bool-cases, arith, ap,
}
use treeherder_service.LogParser.{Env, Match}

abbrev pub blacklist : List String
blacklist =
    "automation.py" ∷ "remoteautomation.py" ∷ "Shutdown" ∷ "undefined"
    ∷ "Main app process exited normally" ∷ "Traceback (most recent call last):" ∷ "Return code: 0"
    ∷ "Return code: 1" ∷ "Return code: 2" ∷ "Return code: 9" ∷ "Return code: 10" ∷ "Exiting 1"
    ∷ "Exiting 9" ∷ "CrashingThread(void *)" ∷ "libSystem.B.dylib + 0xd7a" ∷ "linux-gate.so + 0x424"
    ∷ "TypeError: content is null" ∷ "leakcheck" ∷ []

unfoldable pub is_helpful_search_term : String → Bool
is_helpful_search_term search_term =
    let term = strip search_term in ltb 4 (text_length term) && not (contains term blacklist)

abbrev pub leak_re : String
leak_re = "\\d+ bytes leaked \\((.+)\\)$"

abbrev pub crash_re : String
crash_re = ".+ application crashed \\[@ (.+)\\]$"

abbrev pub mozharness_pattern : String
mozharness_pattern = "^\\d+:\\d+:\\d+[ ]+(?:DEBUG|INFO|WARNING|ERROR|CRITICAL|FATAL) - [ ]?"

-- `match.group(1)`, which takes part in every match of the two expressions
unfoldable pub first_group : Option Match → Option String
first_group none = none
first_group (some m) = elim m.groups [ g ∷ gs ↦ g | [] ↦ none ]

-- `s.split(splitter)[-1]`
unfoldable pub last_part : String → List String → String
last_part s [] = s
last_part s (t ∷ ts) = last_part t ts

unfoldable pub base_name : String → String
unfolding last_part
base_name path =
    let name = last_part path (split_text "/" path) in last_part name (split_text "\\" name)

unfoldable pub leak_or_name : Option String → String → String
unfolding base_name
leak_or_name (some objects) path = objects
leak_or_name none path = base_name path

-- the term of a line of the form "FAILURE-TYPE | testNameOrFilePath | message"
unfoldable pub term_of_tokens : Env → List String → Option String
unfolding leak_or_name
term_of_tokens env (failure_type ∷ test_name_or_path ∷ message ∷ rest) =
    some (leak_or_name (first_group (env.match_at_start leak_re message)) test_name_or_path)
term_of_tokens env _ = none

-- `search_term and is_helpful_search_term(search_term)`, else the whole line, if that is helpful
unfoldable pub helpful_or : String → Option String → Option String
helpful_or error_line (some term) =
    if not (str_eq term "") && is_helpful_search_term term
    then some term
    else if is_helpful_search_term error_line
    then some error_line
    else none
helpful_or error_line none = if is_helpful_search_term error_line then some error_line else none

unfoldable pub cut_term : Option String → Option String
cut_term none = none
cut_term (some term) = some (take_text 100 term)

unfoldable pub get_error_search_term : Env → String → Option String
unfolding term_of_tokens helpful_or cut_term
get_error_search_term env error_line =
    if str_eq error_line ""
    then none
    else cut_term (helpful_or error_line (term_of_tokens env (split_text " | " error_line)))

unfoldable pub helpful_crash : Option String → Option String
helpful_crash none = none
helpful_crash (some signature) = if is_helpful_search_term signature then some signature else none

unfoldable pub get_crash_signature : Env → String → Option String
unfolding helpful_crash
get_crash_signature env error_line =
    helpful_crash (first_group (env.match_at_start crash_re error_line))

unfoldable pub get_mozharness_substring : Env → String → String
get_mozharness_substring env line = strip (env.sub mozharness_pattern "" line)

helpful_or-helpful :
    (line : String) (o : Option String) (term : String)
    → helpful_or line o ≡ some term
    → is_helpful_search_term term ≡ true
unfolding helpful_or
helpful_or-helpful line none term h = ground arith
helpful_or-helpful line (some t) term h = ground arith

cut_term-helpful :
    (o : Option String) (term : String)
    → ((t : String) → o ≡ some t → is_helpful_search_term t ≡ true)
    → cut_term o ≡ some term
    → (text : String) × (term ≡ take_text 100 text)
      × (is_helpful_search_term text ≡ true)
      × (text_length term ≤ 100)
unfolding cut_term
cut_term-helpful none term f h = ground arith
cut_term-helpful (some t) term f h =
    let e : term ≡ take_text 100 t = ground arith in
    (t, e, f t refl, omega (arith, ap text_length e, text_length-take 100 t))

-- A search term is the first hundred characters, or all there are, of a helpful text.
get_error_search_term_lem :
    (env : Env) (error_line term : String)
    → get_error_search_term env error_line ≡ some term
    → (text : String) × (term ≡ take_text 100 text)
      × (is_helpful_search_term text ≡ true)
      × (text_length term ≤ 100)
unfolding get_error_search_term
get_error_search_term_lem env error_line term h = elim (Bool-cases (str_eq error_line "")) [
  | inl e ↦ ground arith
  | inr e ↦
      cut_term-helpful _ term
        (λ t. helpful_or-helpful error_line (term_of_tokens env (split_text " | " error_line)) t)
        (rw e at h)
]
