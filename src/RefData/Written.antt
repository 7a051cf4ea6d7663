-- ===== src/RefData/Written.antt =====
-- The statements of treeherder/model/sql/reference.json: what was inserted is found again.
use treeherder_service.Prelude.{
  ℕ, String, ◌≡◌, refl, ap, sym, ◌∙◌, true, ◌||◌, Option, none, List, [], ◌∷◌, ◌++◌, length, take,
  All, Bool-cases, inl, inr, arith, All-append, eq_iff, eq_refl,
}
use treeherder_service.RefData.Tables.{
  Row, Table, same, has_row, drop, create_row, create_rows, clauses, is_one_of, get_rows,
}
use treeherder_service.RefData.Linked.{twice, concat, HasWidth}

pub same_refl : (cs : List String) → same cs cs ≡ true
unfolding same
same_refl [] = refl
same_refl (c ∷ cs) = ground (arith, eq_refl c, same_refl cs)

pub same→eq : (cs ds : List String) → same cs ds ≡ true → cs ≡ ds
unfolding same
same→eq [] [] h = refl
same→eq [] (d ∷ ds) h = ground arith
same→eq (c ∷ cs) [] h = ground arith
same→eq (c ∷ cs) (d ∷ ds) h = ground (arith, eq_iff c d, same→eq cs ds)

take-append_width : (cs ds : List String) → take (length cs) (cs ++ ds) ≡ cs
take-append_width [] [] = refl
take-append_width [] (d ∷ ds) = refl
take-append_width (c ∷ cs) ds = ap (λ x. c ∷ x) (take-append_width cs ds)

drop-append_width : (cs ds : List String) → drop (length cs) (cs ++ ds) ≡ ds
unfolding drop
drop-append_width [] ds = refl
drop-append_width (c ∷ cs) ds = drop-append_width cs ds

has_row-append :
    (cs : List String) (rs ss : List Row) → has_row cs (rs ++ ss) ≡ (has_row cs rs || has_row cs ss)
unfolding has_row
has_row-append cs [] ss = refl
has_row-append cs (r ∷ rs) ss = ground (arith, has_row-append cs rs ss)

-- no row is switched off
abbrev pub IsActive : Row → Type 0
IsActive r = r.active ≡ true

-- what a statement leaves of a table: its rows, and more
module _ (n : ℕ) (time : Option ℕ) (cs : List String) (w : length cs ≡ n) where
  create_row-has_row : (t : Table) → has_row cs (create_row n time (cs ++ cs) t).rows ≡ true
  unfolding create_row has_row
  create_row-has_row t =
      rw (sym w, drop-append_width cs cs, take-append_width cs cs)
        (elim (Bool-cases (has_row cs t.rows)) [
          | inl e ↦ rw (e, e) refl
          | inr e ↦ rw e (rw has_row-append (ground (arith, same_refl cs)))
        ])

  create_row-keeps :
      (ds : List String) (t : Table)
      → has_row ds t.rows ≡ true
      → has_row ds (create_row n time (cs ++ cs) t).rows ≡ true
  unfolding create_row
  create_row-keeps ds t h = elim (Bool-cases (has_row (drop n (cs ++ cs)) t.rows)) [
    | inl e ↦ rw e h
    | inr e ↦ rw e (rw (has_row-append, h) refl)
  ]

abbrev pub IsWritten : List (List String) → List Row → Type 0
IsWritten [] rows = Unit
IsWritten (cs ∷ css) rows = (has_row cs rows ≡ true) × IsWritten css rows

IsWritten-keeps :
    (n : ℕ) (time : Option ℕ) (cs : List String) (css : List (List String)) (t : Table)
    → length cs ≡ n
    → IsWritten css t.rows
    → IsWritten css (create_row n time (cs ++ cs) t).rows
IsWritten-keeps n time cs [] t w h = tt
IsWritten-keeps n time cs (ds ∷ css) t w h =
    (create_row-keeps n time cs w ds t h.0, IsWritten-keeps n time cs css t w h.1)

create_rows-keeps :
    (n : ℕ) (css : List (List String)) (ds : List String) (t : Table)
    → All (HasWidth n) css
    → has_row ds t.rows ≡ true
    → has_row ds (create_rows n (twice css) t).rows ≡ true
unfolding create_rows twice
create_rows-keeps n [] ds t w h = h
create_rows-keeps n (cs ∷ css) ds t w h =
    create_rows-keeps n css ds (create_row n none (cs ++ cs) t) w.1
      (create_row-keeps n none cs w.0 ds t h)

pub create_rows-IsWritten :
    (n : ℕ) (css : List (List String)) (t : Table)
    → All (HasWidth n) css
    → IsWritten css (create_rows n (twice css) t).rows
unfolding create_rows twice
create_rows-IsWritten n [] t w = tt
create_rows-IsWritten n (cs ∷ css) t w = (
  create_rows-keeps n css cs (create_row n none (cs ++ cs) t) w.1
      (create_row-has_row n none cs w.0 t),
  create_rows-IsWritten n css (create_row n none (cs ++ cs) t) w.1,
)

create_row-IsActive :
    (n : ℕ) (time : Option ℕ) (p : List String) (t : Table)
    → All IsActive t.rows
    → All IsActive (create_row n time p t).rows
unfolding create_row
create_row-IsActive n time p t h = elim (Bool-cases (has_row (drop n p) t.rows)) [
  | inl e ↦ rw e h
  | inr e ↦ rw e (All-append IsActive t.rows _ h (refl, tt))
]

pub create_rows-IsActive :
    (n : ℕ) (ps : List (List String)) (t : Table)
    → All IsActive t.rows
    → All IsActive (create_rows n ps t).rows
unfolding create_rows
create_rows-IsActive n [] t h = h
create_rows-IsActive n (p ∷ ps) t h = create_rows-IsActive n ps _ (create_row-IsActive n none p t h)

-- the clauses of the query ask for the columns
pub clauses-concat :
    (n : ℕ) (css : List (List String)) (filters : List String)
    → length filters ≡ length css
    → All (HasWidth n) css
    → clauses n filters (concat css) ≡ css
unfolding clauses concat
clauses-concat n [] [] h w = refl
clauses-concat n [] (f ∷ fs) h w = ground arith
clauses-concat n (cs ∷ css) [] h w = ground arith
clauses-concat n (cs ∷ css) (f ∷ fs) h w =
    rw (sym w.0, take-append_width cs (concat css), drop-append_width cs (concat css))
      (ap (λ x. cs ∷ x) (clauses-concat n css fs (omega arith) w.1))

-- the rows that were asked for, in tables without inactive rows
pub has_row-get_rows :
    (cs : List String) (css : List (List String)) (rows : List Row)
    → is_one_of cs css ≡ true
    → All IsActive rows
    → has_row cs rows ≡ true
    → has_row cs (get_rows css rows) ≡ true
unfolding has_row get_rows
has_row-get_rows cs css [] o a h = h
has_row-get_rows cs css (r ∷ rs) o a h = elim (Bool-cases (same r.columns cs)) [
  | inl e ↦
      (let q : is_one_of r.columns css ≡ true =
          ap (λ ds. is_one_of ds css) (same→eq r.columns cs e) ∙ o in
        ground (arith, q, e, a.0))
  | inr e ↦ ground (arith, e, has_row-get_rows cs css rs o a.1 (rw e at h))
]

-- every column that was asked for stands among those that were
pub AllAsked-self :
    (css dss : List (List String)) (cs : List String) → is_one_of cs (dss ++ cs ∷ css) ≡ true
unfolding is_one_of
AllAsked-self css [] cs = ground (arith, same_refl cs)
AllAsked-self css (ds ∷ dss) cs = ground (arith, AllAsked-self css dss cs)

create_row-written :
    (n : ℕ) (time : Option ℕ) (cs : List String) (t : Table)
    → length cs ≡ n
    → has_row cs t.rows ≡ true
    → create_row n time (cs ++ cs) t ≡ t
unfolding create_row
create_row-written n time cs t w h = rw (sym w, drop-append_width cs cs, h) refl

-- rows that are there are not inserted again
pub create_rows-written :
    (n : ℕ) (css : List (List String)) (t : Table)
    → All (HasWidth n) css
    → IsWritten css t.rows
    → create_rows n (twice css) t ≡ t
unfolding create_rows twice
create_rows-written n [] t w h = refl
create_rows-written n (cs ∷ css) t w h =
    ap (create_rows n (twice css)) (create_row-written n none cs t w.0 h.0)
    ∙ create_rows-written n css t w.1 h.1
