-- ===== src/LogParser/Details.antt =====
-- TinderboxPrintParser and TalosParser of treeherder/log_parser/parsers.pyx.
use text.Mathlib.Text.{starts_with}
use treeherder_service.Prelude.{
  String, Bool, true, false, Option, none, some, List, [], ◌∷◌, ◌++◌, map, if◌then◌else◌, lookup,
  insert, string_eq, has_text, split_once, str_eq,
}
use treeherder_service.Json.{
  Json, null, str, Result, ok, err, value_error, key_error, index_error, ◌>>=◌,
}
use treeherder_service.LogParser.{
  Env, Match, group, re_tinderboxprint, re_uploaded_to, re_link_html, re_link_text, re_talosdata,
}

-- a detail of the job: a dictionary
abbrev pub Detail : Type 0
Detail = List (String × Json)

-- an entry of `TINDERBOX_REGEXP_TUPLE`
pub record Pattern : Type 0 where
  pub re : String
  pub base_dict : Detail
  pub duplicates_fields : List (String × String)

abbrev pub tinderbox_regexp_tuple : List Pattern
tinderbox_regexp_tuple =
    (record {
      re = re_uploaded_to;
      base_dict = ("content_type", str "link") ∷ ("title", str "artifact uploaded") ∷ [];
      duplicates_fields = [];
    })
    ∷ (record {
      re = re_link_html;
      base_dict = ("content_type", str "link") ∷ [];
      duplicates_fields = [];
    })
    ∷ (record {
      re = re_link_text;
      base_dict = ("content_type", str "link") ∷ [];
      duplicates_fields = ("value", "url") ∷ [];
    })
    ∷ []

abbrev as_json : String × Option String → String × Json
as_json (k, none) = (k, null)
as_json (k, some v) = (k, str v)

-- `to_field not in artifact or artifact[to_field] is None`
abbrev is_missing : Option Json → Bool
is_missing none = true
is_missing (some null) = true
is_missing (some _) = false

abbrev or_key_error : String → Option Json → Result Json
or_key_error k none = err (key_error k)
or_key_error k (some v) = ok v

unfoldable pub duplicate_fields : List (String × String) → Detail → Result Detail
duplicate_fields [] d = ok d
duplicate_fields ((to_field, from_field) ∷ fields) d =
    let copied = or_key_error from_field (lookup from_field d) >>= λ v. ok (insert to_field v d) in
    (if is_missing (lookup to_field d) then copied else ok d) >>= duplicate_fields fields

-- `artifact.update(base_dict)`
unfoldable pub update : Detail → Detail → Detail
update d [] = d
update d ((k, v) ∷ kvs) = update (insert k v d) kvs

-- the detail of the first expression that matches, if there is one
unfoldable pub of_pattern : Pattern → Option Match → Result Detail → Result Detail
unfolding duplicate_fields update
of_pattern p none other = other
of_pattern p (some m) other = do
  d ← duplicate_fields p.duplicates_fields (map as_json m.groupdict)
  ok (update d p.base_dict)

unfoldable pub link_or : Env → String → List Pattern → Detail → Result Detail
unfolding of_pattern
link_or env line [] default = ok default
link_or env line (p ∷ ps) default =
    of_pattern p (env.match_at_start p.re line) (link_or env line ps default)

-- the default: HTML, with a title in front of the first line break
unfoldable pub raw_html : String → Option (String × String) → Detail
raw_html line none = ("content_type", str "raw_html") ∷ ("value", str line) ∷ []
raw_html line (some (title, value)) =
    ("content_type", str "raw_html") ∷ ("title", str title) ∷ ("value", str value) ∷ []

-- `title, json_value = line.split(": ", 1)`
unfoldable pub talos_result : Env → Option (String × String) → Result Detail
talos_result env none = err value_error
talos_result env (some (title, json_value)) = do
  value ← env.loads json_value
  ok (("title", str title) ∷ ("content_type", str "TalosResult") ∷ ("value", value) ∷ [])

unfoldable pub detail_of : Env → String → Result Detail
unfolding link_or raw_html talos_result
detail_of env line =
    if starts_with line "TalosResult: "
    then talos_result env (split_once ": " line)
    else link_or env line tinderbox_regexp_tuple (raw_html line (split_once "<br/>" line))

unfoldable pub on_print : Env → Option Match → List Detail → Result (List Detail)
unfolding detail_of
on_print env none artifact = ok artifact
on_print env (some m) artifact = do
  line ← group "line" m
  d ← detail_of env line
  ok (artifact ++ d ∷ [])

-- TinderboxPrintParser.parse_line, on the parser's artifact
unfoldable pub parse_print : Env → String → List Detail → Result (List Detail)
unfolding on_print
parse_print env line artifact =
    on_print env (if str_eq line "" then none else env.match_at_start re_tinderboxprint line)
      artifact

-- `match.group(1)`
unfoldable pub first_group : Match → Result String
first_group m = elim m.groups [ some g ∷ gs ↦ ok g | _ ↦ err index_error ]

unfoldable pub on_talos : Env → Option Match → Result Json
unfolding first_group
on_talos env none = err value_error
on_talos env (some m) = do text ← first_group m; env.loads text

-- TalosParser.parse_line: the artifact is that of the last line with TALOSDATA
unfoldable pub parse_talos : Env → String → Json → Result Json
unfolding on_talos
parse_talos env line artifact =
    if has_text "TALOSDATA" line
    then on_talos env (env.match_at_start re_talosdata line)
    else ok artifact
