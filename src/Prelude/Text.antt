-- ===== src/Prelude/Text.antt =====
-- Python's string operations on native texts: slices, searches, and the trimming of whitespace.
use Prim.Native.Nat.{ℕ, zero, suc, ◌≤◌, ◌-◌}
use Prim.Native.Char.{Char, code}
use Prim.Native.String.{String}
use Prim.Native.String.{[] as empty_text, ◌∷◌ as char_cons}
use mathlib.Core.Bool.{Bool, ◌&&◌, ◌||◌}
use mathlib.Core.List.{List, [], ◌∷◌}
use mathlib.Core.Option.{Option, none, some}
use native.Mathlib.Omega.{arith}
use text.Mathlib.Text.{starts_with, ◌==◌ as str_eq}
use treeherder_service.Prelude.Tests.{if◌then◌else◌, ◌==◌}

-- `len(s)`, in characters
unfoldable pub text_length : String → ℕ
text_length empty_text = 0
text_length (char_cons c s) = suc (text_length s)

-- `s[0:n]`
unfoldable pub take_text : ℕ → String → String
take_text zero s = empty_text
take_text (suc n) empty_text = empty_text
take_text (suc n) (char_cons c s) = char_cons c (take_text n s)

pub text_length-take : (n : ℕ) (s : String) → text_length (take_text n s) ≤ n
unfolding text_length take_text
text_length-take zero s = omega arith
text_length-take (suc n) empty_text = omega arith
text_length-take (suc n) (char_cons c s) = omega (arith, text_length-take n s)

-- `s[n:]`
unfoldable pub drop_text : ℕ → String → String
drop_text zero s = s
drop_text (suc n) empty_text = empty_text
drop_text (suc n) (char_cons c s) = drop_text n s

-- `t in s`
unfoldable pub has_text : String → String → Bool
has_text t empty_text = str_eq t ""
has_text t (char_cons c s) = starts_with (char_cons c s) t || has_text t s

-- `s.split(sep, 1)`, where it has two parts
abbrev pub put_before : Char → Option (String × String) → Option (String × String)
put_before c none = none
put_before c (some (a, b)) = some (char_cons c a, b)

unfoldable pub split_once : String → String → Option (String × String)
unfolding text_length drop_text
split_once sep empty_text = none
split_once sep (char_cons c s) =
    let rest = split_once sep s in
    if starts_with (char_cons c s) sep
    then some ("", drop_text (text_length sep) (char_cons c s))
    else put_before c rest

-- `s.rstrip()`, `s.lstrip()` and `s.strip()` on ASCII whitespace
abbrev is_space : ℕ → Bool
is_space c = c == 32 || c == 9 || c == 10 || c == 11 || c == 12 || c == 13

unfoldable pub rstrip : String → String
rstrip empty_text = empty_text
rstrip (char_cons c s) =
    let rest = rstrip s in
    if is_space (code c) && str_eq rest "" then empty_text else char_cons c rest

unfoldable pub lstrip : String → String
lstrip empty_text = empty_text
lstrip (char_cons c s) = let rest = lstrip s in if is_space (code c) then rest else char_cons c s

unfoldable pub strip : String → String
unfolding rstrip lstrip
strip s = rstrip (lstrip s)

-- `s.split(sep)`, behind `skip` characters of a separator that was found
abbrev push_first : Char → List String → List String
push_first c [] = []
push_first c (t ∷ ts) = char_cons c t ∷ ts

unfoldable pub split_from : String → ℕ → String → List String
unfolding text_length
split_from sep skip empty_text = "" ∷ []
split_from sep (suc skip) (char_cons c s) = split_from sep skip s
split_from sep zero (char_cons c s) =
    let found = starts_with (char_cons c s) sep in
    let rest = split_from sep (if found then text_length sep - 1 else 0) s in
    if found then "" ∷ rest else push_first c rest

unfoldable pub split_text : String → String → List String
unfolding split_from
split_text sep s = split_from sep 0 s
