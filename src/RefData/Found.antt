-- ===== src/RefData/Found.antt =====
-- The lookups that treeherder/model/derived/refdata.py reads back: every key that was collected has
-- the id of a row with that key.
use treeherder_service.Prelude.{
  ℕ, String, ◌≡◌, refl, ap, sym, ◌∙◌, Bool, true, false, ◌||◌, some, List, [], ◌∷◌, ◌++◌, length,
  keep, All, Bool-cases, inl, inr, ◌⊎◌, arith, append_assoc, str_eq, eq_iff, eq_refl, if◌then◌else◌,
  lookup, insert, lookup-insert, string_eq,
}
use treeherder_service.RefData.{Collected}
use treeherder_service.RefData.Tables.{
  Row, Table, same, has_row, create_rows, clauses, is_one_of, get_rows,
}
use treeherder_service.RefData.Process.{
  put_all, id_of, entry_of, by_name, name_of, put_rows, name_symbol_key, process_names,
  process_names_and_symbols, no_rows_yet,
}
use treeherder_service.RefData.Linked.{Linked, linked, keys, keys_of, twice, concat, HasWidth}
use treeherder_service.RefData.Written.{
  IsActive, IsWritten, same→eq, create_rows-IsWritten, create_rows-IsActive, clauses-concat,
  has_row-get_rows, AllAsked-self,
}

abbrev pub Stands : Row → List Row → Type 0
Stands r [] = ⊥
Stands r (x ∷ xs) = (x ≡ r) ⊎ Stands r xs

Stands-if :
    (b : Bool) (r x : Row) (rows : List Row)
    → Stands r (if b then x ∷ rows else rows)
    → (x ≡ r) ⊎ Stands r rows
Stands-if true r x rows h = h
Stands-if false r x rows h = inr h

keep-Stands : (p : Row → Bool) (r : Row) (rows : List Row) → Stands r (keep p rows) → Stands r rows
keep-Stands p r [] h = elim h [ ]
keep-Stands p r (x ∷ rows) h = elim (Stands-if (p x) r x (keep p rows) h) [
  | inl q ↦ inl q
  | inr q ↦ inr (keep-Stands p r rows q)
]

get_rows-Stands :
    (css : List (List String)) (r : Row) (rows : List Row)
    → Stands r (get_rows css rows)
    → Stands r rows
unfolding get_rows
get_rows-Stands css r rows h = keep-Stands _ r rows h

-- the value of a key in a dictionary of rows is that of a row with that key
abbrev pub Holding {ℓ} :
    {V : Type ℓ}
    → (List String → String)
    → (Row → V)
    → List Row
    → List (String × V)
    → String
    → Type ℓ
Holding key value rows d k =
    (r : Row) × (lookup k d ≡ some (value r)) × (key r.columns ≡ k) × Stands r rows

abbrev pub has_key_row : (List String → String) → String → List Row → Bool
has_key_row key k [] = false
has_key_row key k (r ∷ rs) = str_eq (key r.columns) k || has_key_row key k rs

put_all-none {ℓ} :
    {V : Type ℓ} (key : List String → String) (value : Row → V) (k : String) (rows : List Row)
    (d : List (String × V))
    → has_key_row key k rows ≡ false
    → lookup k (put_all key value rows d) ≡ lookup k d
unfolding put_all
put_all-none key value k [] d h = refl
put_all-none key value k (r ∷ rs) d h =
    let first : str_eq (key r.columns) k ≡ false = ground arith in
    let others : has_key_row key k rs ≡ false = ground arith in
    put_all-none key value k rs _ others
    ∙ lookup-insert (key r.columns) k (value r) d
    ∙ rw first refl

put_all-Holding {ℓ} :
    {V : Type ℓ} (key : List String → String) (value : Row → V) (k : String) (rows : List Row)
    (d : List (String × V))
    → has_key_row key k rows ≡ true
    → Holding key value rows (put_all key value rows d) k
unfolding put_all
put_all-Holding key value k [] d h = absurd (cc h)
put_all-Holding key value k (r ∷ rs) d h = elim (Bool-cases (has_key_row key k rs)) [
  | inl e ↦
      let (x, l, q, s) = put_all-Holding key value k rs (insert (key r.columns) (value r) d) e in
      (x, l, q, inr s)
  | inr e ↦
      let first : str_eq (key r.columns) k ≡ true = ground arith in
      (
        r,
        put_all-none key value k rs _ e
            ∙ lookup-insert (key r.columns) k (value r) d
            ∙ rw first refl,
        (eq_iff (key r.columns) k).0 first,
        inl refl,
      )
]

has_row-has_key_row :
    (key : List String → String) (cs : List String) (rows : List Row)
    → has_row cs rows ≡ true
    → has_key_row key (key cs) rows ≡ true
unfolding has_row
has_row-has_key_row key cs [] h = h
has_row-has_key_row key cs (r ∷ rs) h = elim (Bool-cases (same r.columns cs)) [
  | inl e ↦
      let q : str_eq (key r.columns) (key cs) ≡ true =
        rw (same→eq r.columns cs e) (eq_refl (key cs)) in
      ground (arith, q)
  | inr e ↦ ground (arith, has_row-has_key_row key cs rs (rw e at h))
]

abbrev pub AllHeld {ℓ} :
    {V : Type ℓ}
    → (List String → String)
    → (Row → V)
    → List Row
    → List (String × V)
    → List String
    → Type ℓ
AllHeld key value rows d [] = Unit
AllHeld key value rows d (k ∷ ks) = Holding key value rows d k × AllHeld key value rows d ks

-- what is written and asked for is found
put_all-AllHeld {ℓ} :
    {V : Type ℓ} (key : List String → String) (value : Row → V)
    (asked before css : List (List String)) (rows : List Row) (d : List (String × V))
    → asked ≡ before ++ css
    → All IsActive rows
    → IsWritten css rows
    → AllHeld key value rows (put_all key value (get_rows asked rows) d) (keys_of key css)
unfolding keys_of
put_all-AllHeld key value asked before [] rows d e a w = tt
put_all-AllHeld key value asked before (cs ∷ css) rows d e a w =
    let one : is_one_of cs asked ≡ true = rw e (AllAsked-self css before cs) in
    let (r, l, q, s) = put_all-Holding key value (key cs) (get_rows asked rows) d (
      has_row-has_key_row key cs (get_rows asked rows)
        (has_row-get_rows cs asked rows one a w.0)) in
    (
      (r, l, q, get_rows-Stands asked r rows s),
      put_all-AllHeld key value asked (before ++ cs ∷ []) css rows d
          (e ∙ sym (append_assoc before (cs ∷ []) css)) a w.1,
    )

-- the rows that the placeholders write, asked for by the texts of the query
pub written-AllHeld {ℓ} :
    {V : Type ℓ} (key : List String → String) (value : Row → V) (n : ℕ)
    (css ps : List (List String)) (filters us : List String) (ks : List String) (t : Table)
    (d : List (String × V))
    → ks ≡ keys_of key css
    → ps ≡ twice css
    → us ≡ concat css
    → length filters ≡ length css
    → All (HasWidth n) css
    → All IsActive t.rows
    → AllHeld key value
        (create_rows n ps t).rows
        (put_all key value (get_rows (clauses n filters us) (create_rows n ps t).rows) d)
        ks
written-AllHeld key value n css ps filters us ks t d k p u f w a = rw k (
    put_all-AllHeld key value (clauses n filters us) [] css (create_rows n ps t).rows d
      (ap (clauses n filters) u ∙ clauses-concat n css filters f w) (create_rows-IsActive n ps t a)
      (rw p (create_rows-IsWritten n css t w)))

-- where no row is inactive and the host that is read does not lag, each name has the id of its row
pub process_names-AllHeld :
    (c : Collected) (t : Table)
    → Linked name_of 1 c
    → All IsActive t.rows
    → AllHeld name_of id_of
        (process_names (λ rows. rows) c t).1.rows
        (process_names (λ rows. rows) c t).0
        (keys c.entries)
unfolding process_names by_name keys_of twice
process_names-AllHeld c t (linked [] entries filters [] us k p u f w) a = rw k tt
process_names-AllHeld c t (linked (cs ∷ css) entries filters [] us k p u f w) a =
    absurd (omega (arith, ap length p))
process_names-AllHeld c t (linked css entries filters (q ∷ ps) us k p u f w) a =
    written-AllHeld name_of id_of 1 css (q ∷ ps) filters us (keys entries) t [] k p u f w a

-- the same for names with symbols, whose lookup has the ids of the groups too
pub process_names_and_symbols-AllHeld :
    (c : Collected) (t : Table)
    → Linked name_symbol_key 2 c
    → All IsActive t.rows
    → AllHeld name_symbol_key entry_of
        (process_names_and_symbols c t).1.rows
        (process_names_and_symbols c t).0
        (keys c.entries)
unfolding process_names_and_symbols put_rows keys_of
process_names_and_symbols-AllHeld c t (linked [] entries [] ps us k p u f w) a = rw k tt
process_names_and_symbols-AllHeld c t (linked (cs ∷ css) entries [] ps us k p u f w) a =
    absurd (omega (arith, f))
process_names_and_symbols-AllHeld c t (linked css entries (g ∷ gs) ps us k p u f w) a =
    written-AllHeld name_symbol_key entry_of 2 css ps (g ∷ gs) us (keys entries) t
      (no_rows_yet entries) k p u f w a
