-- ===== src/LogParser/Header.antt =====
-- HeaderParser of treeherder/log_parser/parsers.pyx: the key and value pairs above the first step.
use treeherder_service.Prelude.{
  String, Bool, true, false, Option, none, some, List, [], ◌∷◌, insert, string_eq,
}
use treeherder_service.Json.{Result, ok, err, value_error}
use treeherder_service.LogParser.{Env, Match, re_header_start, re_header_value}

pub record HeaderParser : Type 0 where
  pub artifact : List (String × Option String)
  pub complete : Bool

abbrev pub new_header : HeaderParser
new_header = record { artifact = []; complete = false }

-- `key, value = match.groups()`
unfoldable pub put_value : Option Match → HeaderParser → Result HeaderParser
put_value none p = ok p
put_value (some m) p = elim m.groups [
  | some key ∷ value ∷ [] ↦ ok (record p { artifact = insert key value p.artifact })
  | _ ↦ err value_error
]

unfoldable pub on_header : Option Match → Option Match → HeaderParser → Result HeaderParser
unfolding put_value
on_header (some start) pair p = ok (record p { complete = true })
on_header none pair p = put_value pair p

unfoldable pub parse_line : Env → String → HeaderParser → Result HeaderParser
unfolding on_header
parse_line env line =
    on_header (env.match_at_start re_header_start line) (env.match_at_start re_header_value line)
