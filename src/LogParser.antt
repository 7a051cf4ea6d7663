-- ===== src/LogParser.antt =====
-- treeherder/log_parser: how a log becomes artifacts. Here, what its modules share: the regular
-- expressions of parsers.pyx, the environment of the parsers, and the errors of ErrorParser.
pub mod Errors
pub mod Header
pub mod Steps
pub mod Sections
pub mod Spans
pub mod StepsValid
pub mod Details
pub mod Builders
pub mod Running
pub mod Terms
pub mod Suggestions
pub mod AskedOnce
pub mod Task
pub mod Whole
use treeherder_service.Prelude.{ℕ, String, Option, none, some, List, [], ◌∷◌, lookup, string_eq}
use treeherder_service.Json.{Json, Result, ok, err, type_error, index_error}

-- what the code reads of a match of Python's `re`: the groups, and the named ones; a group that
-- took no part is `none`
pub record Match : Type 0 where
  pub groups : List (Option String)
  pub groupdict : List (String × Option String)

-- The functions of `re`, of `json`, of `datetime`, and `int` on texts. A date is the number of its
-- microseconds.
pub record Env : Type 0 where
  pub match_at_start : String → String → Option Match
  pub search : String → String → Option Match
  pub sub : String → String → String → String
  pub loads : String → Result Json
  pub strptime : String → String → Result ℕ
  pub int : String → Result ℕ

abbrev text_of : Option (Option String) → Result String
text_of none = err index_error
text_of (some none) = err type_error
text_of (some (some s)) = ok s

-- `match.group(name)`, as a text: a group that took no part gives None, which no caller can use
unfoldable pub group : String → Match → Result String
group name m = text_of (lookup name m.groupdict)

abbrev pub re_header_value : String
re_header_value = "^(?P<key>[a-z]+): (?P<value>.*)$"

abbrev pub re_header_start : String
re_header_start = "={9} Started (.*)$"

abbrev pub re_step_start : String
re_step_start =
    "={9} Started (?P<name>.*?) \\(results: (?P<result>\\d+), elapsed: .*?\\) \\(at (?P<timestamp>.*?)\\)"

abbrev pub re_step_finish : String
re_step_finish =
    "={9} Finished (?P<name>.*?) \\(results: (?P<result>\\d+), elapsed: .*?\\) \\(at (?P<timestamp>.*?)\\)"

abbrev pub re_tinderboxprint : String
re_tinderboxprint = ".*TinderboxPrint: (?P<line>.*)$"

abbrev pub re_uploaded_to : String
re_uploaded_to = "<a href=['\"](?P<url>http(s)?://.*)['\"]>(?P<value>.+)</a>: uploaded"

abbrev pub re_link_html : String
re_link_html =
    "((?P<title>[A-Za-z/\\.0-9\\-_]+): )?<a .*href=['\"](?P<url>http(s)?://.+)['\"].*>(?P<value>.+)</a>"

abbrev pub re_link_text : String
re_link_text = "((?P<title>[A-Za-z/\\.0-9\\-_]+): )?(?P<url>http(s)?://.*)"

abbrev pub re_talosdata : String
re_talosdata = ".*?TALOSDATA:\\s+(\\[.*\\])"
