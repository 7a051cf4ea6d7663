-- ===== src/Query/Placeholders.antt =====
-- The text of a WHERE clause and its placeholders fit together.
use Prim.Native.Char.{code}
use Prim.Native.String.{◌++◌ as append, [] as empty_text, ◌∷◌ as char_cons}
use text.Mathlib.TextLemmas.{nil-append, cons-append}
use treeherder_service.Prelude.{
  ℕ, zero, suc, ◌+◌, String, ◌≡◌, refl, ap, ◌∙◌, some, List, [], ◌∷◌, arith, ◌==◌, str_eq,
  if◌then◌else◌, length, length-append, length-map, lookup, string_eq, text_length, All, Bool-cases,
  Option-cases, inl, inr,
}
use treeherder_service.Json.{ok}
use treeherder_service.Query.{
  Value, one, many, Condition, Conditions, letters, items, value_length, marks, Clause,
  add_condition, add_conditions, process_columns, process_conditions,
}

-- the marks `%` of a text, each the start of one `%s`
unfoldable pub percents : String → ℕ
percents empty_text = 0
percents (char_cons c s) = (if code c == b'%' then 1 else 0) + percents s

percents-append : (s t : String) → percents (append s t) ≡ percents s + percents t
unfolding percents
percents-append empty_text t = rw nil-append (omega arith)
percents-append (char_cons c s) t = rw cons-append (omega (arith, percents-append s t))

percents-marks : (n : ℕ) → percents (marks n) ≡ n
unfolding percents marks
percents-marks zero = refl
percents-marks (suc zero) = refl
percents-marks (suc (suc n)) =
    percents-append "%s," (marks (suc n)) ∙ omega (arith, percents-marks (suc n))

length-letters : (s : String) → length (letters s) ≡ text_length s
unfolding letters text_length
length-letters empty_text = refl
length-letters (char_cons c s) = ap suc (length-letters s)

length-items : (v : Value) → length (items v) ≡ value_length v
length-items (one s) = length-letters s
length-items (many vs) = length-map one vs

abbrev pub IsPlain : String → Type 0
IsPlain s = percents s ≡ 0

abbrev pub Fits : Clause → Type 0
Fits clause = percents clause.0 ≡ length clause.1

add_condition-Fits :
    (column : String) (c : Condition) (clause : Clause)
    → IsPlain column
    → IsPlain c.0
    → Fits clause
    → Fits (add_condition column c clause)
unfolding add_condition percents
add_condition-Fits column (operator, value) (text, ps) h k f =
    elim (Bool-cases (str_eq operator "IN")) [
      | inl e ↦
          rw e (
            simp (percents-append, percents-marks, length-append, length-items, h, k) (omega arith))
      | inr e ↦ rw e (simp (percents-append, length-append, h, k) (omega arith))
    ]

add_conditions-Fits :
    (column : String) (cs : List Condition) (clause : Clause)
    → IsPlain column
    → All (λ c. IsPlain c.0) cs
    → Fits clause
    → Fits (add_conditions column cs clause)
unfolding add_conditions
add_conditions-Fits column [] clause h k f = f
add_conditions-Fits column (c ∷ cs) clause h k f =
    add_conditions-Fits column cs (add_condition column c clause) h k.1
      (add_condition-Fits column c clause h k.0 f)

IsPlain-lookup :
    (column name : String) (fields : List (String × String))
    → All (λ e. IsPlain e.1) fields
    → lookup column fields ≡ some name
    → IsPlain name
unfolding lookup
IsPlain-lookup column name [] h k = cc
IsPlain-lookup column name ((key, value) ∷ fields) h k = elim (Bool-cases (str_eq key column)) [
  | inl e ↦ let same : some value ≡ some name = rw e at k in let clean = h.0 in cc
  | inr e ↦ IsPlain-lookup column name fields h.1 (rw e at k)
]

process_columns-Fits :
    (fields : List (String × String)) (conditions : Conditions) (clause : Clause)
    → All (λ e. IsPlain e.1) fields
    → All (λ e. All (λ c. IsPlain c.0) e.1) conditions
    → Fits clause
    → (result : Clause) × (process_columns (some fields) conditions clause ≡ ok result)
      × Fits result
unfolding process_columns
process_columns-Fits fields [] clause h k f = (clause, refl, f)
process_columns-Fits fields ((column, cs) ∷ rest) clause h k f =
    elim (Option-cases (lookup column fields)) [
      | inl e ↦ rw e (process_columns-Fits fields rest clause h k.1 f)
      | inr (name, e) ↦ rw e (
          process_columns-Fits fields rest (add_conditions name cs clause) h k.1
            (add_conditions-Fits name cs clause (IsPlain-lookup column name fields h e) k.0 f))
    ]

-- For a table of allowed columns, any conditions give a clause, and it has as many marks `%s` as
-- there are placeholders, as long as neither a column nor an operator holds a `%`.
pub process_conditions_lem :
    (fields : List (String × String)) (conditions : Conditions)
    → All (λ e. IsPlain e.1) fields
    → All (λ e. All (λ c. IsPlain c.0) e.1) conditions
    → (clause : Clause) × (process_conditions (some fields) conditions ≡ ok clause)
      × (percents clause.0 ≡ length clause.1)
unfolding process_conditions
process_conditions_lem fields conditions h k =
    process_columns-Fits fields conditions ("", []) h k (unfold percents in refl)
