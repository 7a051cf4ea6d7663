-- ===== src/Query.antt =====
-- From a query string to the WHERE clause of a statement: `UrlQueryFilter` of
-- treeherder/webapp/api/utils.py, and `_process_conditions` of treeherder/model/derived/jobs.py.
-- Python's sets of conditions are lists without repetition.
pub mod Placeholders
pub mod Filter
use Prim.Native.Char.{code}
use Prim.Native.String.{◌++◌ as append, [] as empty_text, ◌∷◌ as char_cons}
use treeherder_service.Prelude.{
  ℕ, zero, suc, ◌+◌, String, Bool, true, false, not, ◌&&◌, ◌||◌, Option, none, some, List, [], ◌∷◌,
  ◌++◌, map, ◌==◌, str_eq, if◌then◌else◌, keep, length, lookup, insert, string_eq, text_length,
}
use treeherder_service.Json.{Result, ok, err, PyError, key_error, type_error, value_error, ◌>>=◌}

-- a text, or the tuple of an `in` or `nin`
pub data Value : Type 0 where
  one : String → Value
  many : List String → Value

-- an operator and its value
abbrev pub Condition : Type 0
Condition = String × Value

abbrev pub Conditions : Type 0
Conditions = List (String × List Condition)

-- `placeholders += value` goes through a text letter by letter
pub letters : String → List Value
letters empty_text = []
letters (char_cons c s) = one (char_cons c empty_text) ∷ letters s

abbrev pub items : Value → List Value
items (one s) = letters s
items (many vs) = map one vs

-- `len(value)`
abbrev pub value_length : Value → ℕ
value_length (one s) = text_length s
value_length (many vs) = length vs

-- `",".join(["%s"] * n)`
pub marks : ℕ → String
marks zero = ""
marks (suc zero) = "%s"
marks (suc (suc n)) = append "%s," (marks (suc n))

abbrev pub Clause : Type 0
Clause = String × List Value

-- one condition on a column: what it adds to the text and to the placeholders
pub add_condition : String → Condition → Clause → Clause
unfolding letters marks
add_condition column (operator, value) (replace_str, placeholders) =
    let head = append replace_str (append "AND " (append column (append " " operator))) in
    if str_eq operator "IN"
    then (
      append head (append "(" (append (marks (value_length value)) ")")),
      placeholders ++ items value,
    )
    else (append head " %s ", placeholders ++ value ∷ [])

pub add_conditions : String → List Condition → Clause → Clause
unfolding add_condition
add_conditions column [] clause = clause
add_conditions column (c ∷ cs) clause = add_conditions column cs (add_condition column c clause)

-- The loop over the columns. Without allowed fields the test `column in allowed_fields` is made
-- on None, and raises TypeError.
pub process_columns : Option (List (String × String)) → Conditions → Clause → Result Clause
unfolding add_conditions
process_columns allowed [] clause = ok clause
process_columns none ((column, condition) ∷ rest) clause = err type_error
process_columns (some fields) ((column, condition) ∷ rest) clause =
    process_columns (some fields) rest (elim (lookup column fields) [
      | none ↦ clause
      | some name ↦ add_conditions name condition clause
    ])

pub process_conditions : Option (List (String × String)) → Conditions → Result Clause
unfolding process_columns
process_conditions allowed conditions = process_columns allowed conditions ("", [])

-- UrlQueryFilter.operators
abbrev pub operators : List (String × String)
operators =
    ("gt", ">")
    ∷ ("gte", ">=")
    ∷ ("lt", "<")
    ∷ ("lte", "<=")
    ∷ ("=", "=")
    ∷ ("in", "IN")
    ∷ ("ne", "<>")
    ∷ ("nin", "NOT IN")
    ∷ []

abbrev pub is_underscore : String → Bool
is_underscore empty_text = false
is_underscore (char_cons c s) = code c == b'_'

abbrev pub drop_first : String → String
drop_first empty_text = empty_text
drop_first (char_cons c s) = s

abbrev pub prefixed : String → Option (String × String) → Option (String × String)
prefixed p none = none
prefixed p (some (field, operator)) = some (append p field, operator)

-- `k.split("__", 1)`, where the key holds the splitter
pub split_key : String → Option (String × String)
split_key empty_text = none
split_key (char_cons c s) =
    let later = split_key s in
    if code c == b'_' && is_underscore s
    then some ("", drop_first s)
    else prefixed (char_cons c empty_text) later

-- `v.split(",")`
abbrev pub extend_first : String → List String → List String
extend_first p [] = p ∷ []
extend_first p (w ∷ ws) = append p w ∷ ws

unfoldable pub split_commas : String → List String
split_commas empty_text = "" ∷ []
split_commas (char_cons c s) =
    let rest = split_commas s in
    if code c == b',' then "" ∷ rest else extend_first (char_cons c empty_text) rest

-- the field, the SQL operator and the value of one parameter
pub parse_param : String → String → Result (String × Condition)
parse_param k v = elim (split_key k) [
  | none ↦ ok (k, ("=", one v))
  | some (field, operator) ↦ elim (lookup operator operators) [
    | none ↦ err value_error
    | some sql ↦
        if str_eq operator "in" || str_eq operator "nin"
        then ok (field, (sql, many (split_commas v)))
        else ok (field, (sql, one v))
  ]
]

-- `self.conditions[field].add(c)` on a `defaultdict(set)`; `values_eq` decides equality of tuples
pub values_eq : Value → Value → Bool
values_eq (one s) (one t) = str_eq s t
values_eq (many []) (many []) = true
values_eq (many (v ∷ vs)) (many (w ∷ ws)) = str_eq v w && values_eq (many vs) (many ws)
values_eq _ _ = false

abbrev pub condition_eq : Condition → Condition → Bool
condition_eq (o, v) (p, w) = str_eq o p && values_eq v w

-- `s.add(c)`
pub add_to_set : Condition → List Condition → List Condition
unfolding values_eq
add_to_set c [] = c ∷ []
add_to_set c (d ∷ ds) = if condition_eq d c then d ∷ ds else d ∷ add_to_set c ds

abbrev pub found : Option (List Condition) → List Condition
found none = []
found (some cs) = cs

pub init : List (String × String) → Conditions → Result Conditions
unfolding parse_param add_to_set
init [] conditions = ok conditions
init ((k, v) ∷ params) conditions = do
  (field, c) ← parse_param k v
  init params (insert field (add_to_set c (found (lookup field conditions))) conditions)

-- what `get` returns: a plain value, the pair of operator and value, or the set itself
pub data Answer : Type 0 where
  plain : Value → Answer
  pair : Condition → Answer
  set : List Condition → Answer
  default : String → Answer

abbrev pub answer_of : Condition → Answer
answer_of (operator, value) = if str_eq operator "=" then plain value else pair (operator, value)

-- `if default: return default`, else KeyError; the empty text is falsy too
abbrev pub or_default : String → Option String → Result Answer
or_default key none = err (key_error key)
or_default key (some d) = if str_eq d "" then err (key_error key) else ok (default d)

-- `value.pop()` takes the only condition out of the filter's own set
pub get_set : String → List Condition → Conditions → Result Answer × Conditions
get_set key (c ∷ []) conditions = (ok (answer_of c), insert key [] conditions)
get_set key cs conditions = (ok (set cs), conditions)

pub get : String → Option String → Conditions → Result Answer × Conditions
get key d conditions = elim (lookup key conditions) [
  | none ↦ (or_default key d, conditions)
  | some cs ↦ get_set key cs conditions
]

-- `del self.conditions[key]`, which `pop` calls only for a key that is there
pub delete : String → Conditions → Conditions
delete key conditions = keep (λ e. not (str_eq e.0 key)) conditions

abbrev pub or_given : PyError → Option String → Result Answer
or_given e none = err e
or_given e (some d) = ok (default d)

-- the KeyError of `get` is answered with the default, where one is given
abbrev pub pop_with :
    String → Option String → Result Answer × Conditions → Result Answer × Conditions
pop_with key d (ok a, left) = (ok a, delete key left)
pop_with key d (err e, left) = (or_given e d, left)

pub pop : String → Option String → Conditions → Result Answer × Conditions
pop key d conditions = pop_with key d (get key none conditions)
