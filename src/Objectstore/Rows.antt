-- ===== src/Objectstore/Rows.antt =====
-- Rows by their ids, and what an update of single rows leaves alone.
use treeherder_service.Prelude.{
  ℕ, suc, ◌+◌, ◌-◌, ◌≤◌, String, ◌≡◌, refl, ap, Bool, true, false, keep, ◌&&◌, ◌||◌, str_eq, eq_iff,
  Option, none, some, List, [], ◌∷◌, ◌++◌, map, arith, ltb, Bool-cases, inl, inr, ◌==◌,
  if◌then◌else◌,
}
use treeherder_service.Objectstore.{Row, claimable, mark_loading, has_guid}

-- the row with an id
unfoldable pub row_at : ℕ → List Row → Option Row
row_at id [] = none
row_at id (r ∷ rs) = if r.id == id then some r else row_at id rs

pub row_at-append :
    (id : ℕ) (rs qs : List Row) (r : Row) → row_at id rs ≡ some r → row_at id (rs ++ qs) ≡ some r
unfolding row_at
row_at-append id [] qs r h = cc
row_at-append id (q ∷ rs) qs r h = ground (arith, row_at-append id rs qs r)

-- An update that keeps the ids and does not touch the row.
pub row_at-map :
    (f : Row → Row) (id : ℕ) (rs : List Row) (r : Row)
    → ((q : Row) → (f q).id ≡ q.id)
    → f r ≡ r
    → row_at id rs ≡ some r
    → row_at id (map f rs) ≡ some r
unfolding row_at
row_at-map f id [] r same fixed h = cc
row_at-map f id (q ∷ rs) r same fixed h = ground (arith, same q, row_at-map f id rs r same fixed)

pub row_at-mark_loading :
    (c limit id : ℕ) (rs : List Row) (r : Row)
    → claimable r ≡ false
    → row_at id rs ≡ some r
    → row_at id (mark_loading c limit rs) ≡ some r
unfolding row_at mark_loading
row_at-mark_loading c limit id [] r k h = cc
row_at-mark_loading c limit id (q ∷ rs) r k h = elim (Bool-cases (ltb 0 limit && claimable q)) [
  | inl e ↦ rw e (ground (arith, row_at-mark_loading c (limit - 1) id rs r k))
  | inr e ↦ rw e (ground (arith, row_at-mark_loading c limit id rs r k))
]

-- A deletion that spares the row.
pub row_at-keep :
    (p : Row → Bool) (id : ℕ) (rs : List Row) (r : Row)
    → p r ≡ true
    → row_at id rs ≡ some r
    → row_at id (keep p rs) ≡ some r
unfolding row_at
row_at-keep p id [] r k h = cc
row_at-keep p id (q ∷ rs) r k h = elim (Bool-cases (q.id == id)) [
  | inl e ↦
      let same : q ≡ r = ground (arith, e, h) in
      let kept : p q ≡ true = rw same k in rw kept (rw e (ap some same))
  | inr e ↦ elim (Bool-cases (p q)) [
    | inl f ↦ rw f (rw e (row_at-keep p id rs r k (ground (arith, e, h))))
    | inr f ↦ rw f (row_at-keep p id rs r k (ground (arith, e, h)))
  ]
]

-- The ids rise from `lo` on and stay below `hi`, so that no id stands twice.
abbrev pub Ascending : ℕ → ℕ → List Row → Type 0
Ascending lo hi [] = lo ≤ hi
Ascending lo hi (r ∷ rs) = (lo ≤ r.id) × Ascending (suc r.id) hi rs

abbrev pub Distinct : List Row → Type 0
Distinct [] = Unit
Distinct (r ∷ rs) = (has_guid r.job_guid rs ≡ false) × Distinct rs

Ascending-le : (lo lo2 hi : ℕ) (rs : List Row) → lo ≤ lo2 → Ascending lo2 hi rs → Ascending lo hi rs
Ascending-le lo lo2 hi [] l h = omega arith
Ascending-le lo lo2 hi (r ∷ rs) l h = (omega (arith, l, h.0), h.1)

pub Ascending-keep :
    (p : Row → Bool) (lo hi : ℕ) (rs : List Row) → Ascending lo hi rs → Ascending lo hi (keep p rs)
Ascending-keep p lo hi [] h = h
Ascending-keep p lo hi (r ∷ rs) h = elim (Bool-cases (p r)) [
  | inl e ↦ rw e (h.0, Ascending-keep p (suc r.id) hi rs h.1)
  | inr e ↦ rw e (
      Ascending-le lo (suc r.id) hi (keep p rs) (omega (arith, h.0))
        (Ascending-keep p (suc r.id) hi rs h.1))
]

pub Ascending-map :
    (f : Row → Row) (lo hi : ℕ) (rs : List Row)
    → ((q : Row) → (f q).id ≡ q.id)
    → Ascending lo hi rs
    → Ascending lo hi (map f rs)
Ascending-map f lo hi [] same h = h
Ascending-map f lo hi (r ∷ rs) same h = rw (same r) (h.0, Ascending-map f (suc r.id) hi rs same h.1)

pub Ascending-append :
    (lo hi : ℕ) (rs : List Row) (r : Row)
    → r.id ≡ hi
    → Ascending lo hi rs
    → Ascending lo (hi + 1) (rs ++ r ∷ [])
Ascending-append lo hi [] r e h = omega arith
Ascending-append lo hi (q ∷ rs) r e h = (h.0, Ascending-append (suc q.id) hi rs r e h.1)

pub Ascending-mark_loading :
    (c limit lo hi : ℕ) (rs : List Row)
    → Ascending lo hi rs
    → Ascending lo hi (mark_loading c limit rs)
unfolding mark_loading
Ascending-mark_loading c limit lo hi [] h = h
Ascending-mark_loading c limit lo hi (r ∷ rs) h = elim (Bool-cases (ltb 0 limit && claimable r)) [
  | inl e ↦ rw e (h.0, Ascending-mark_loading c (limit - 1) (suc r.id) hi rs h.1)
  | inr e ↦ rw e (h.0, Ascending-mark_loading c limit (suc r.id) hi rs h.1)
]

has_guid-map :
    (f : Row → Row) (guid : String) (rs : List Row)
    → ((q : Row) → (f q).job_guid ≡ q.job_guid)
    → has_guid guid (map f rs) ≡ has_guid guid rs
unfolding has_guid
has_guid-map f guid [] same = refl
has_guid-map f guid (r ∷ rs) same = rw (same r, has_guid-map f guid rs same) refl

has_guid-mark_loading :
    (c limit : ℕ) (guid : String) (rs : List Row)
    → has_guid guid (mark_loading c limit rs) ≡ has_guid guid rs
unfolding has_guid mark_loading
has_guid-mark_loading c limit guid [] = refl
has_guid-mark_loading c limit guid (r ∷ rs) = elim (Bool-cases (ltb 0 limit && claimable r)) [
  | inl e ↦ rw (e, has_guid-mark_loading c (limit - 1) guid rs) refl
  | inr e ↦ rw (e, has_guid-mark_loading c limit guid rs) refl
]

has_guid-keep :
    (p : Row → Bool) (guid : String) (rs : List Row)
    → has_guid guid rs ≡ false
    → has_guid guid (keep p rs) ≡ false
unfolding has_guid
has_guid-keep p guid [] h = refl
has_guid-keep p guid (r ∷ rs) h = ground (arith, has_guid-keep p guid rs)

pub Distinct-keep : (p : Row → Bool) (rs : List Row) → Distinct rs → Distinct (keep p rs)
Distinct-keep p [] h = h
Distinct-keep p (r ∷ rs) h = elim (Bool-cases (p r)) [
  | inl e ↦ rw e (has_guid-keep p r.job_guid rs h.0, Distinct-keep p rs h.1)
  | inr e ↦ rw e (Distinct-keep p rs h.1)
]

pub Distinct-map :
    (f : Row → Row) (rs : List Row)
    → ((q : Row) → (f q).job_guid ≡ q.job_guid)
    → Distinct rs
    → Distinct (map f rs)
Distinct-map f [] same h = h
Distinct-map f (r ∷ rs) same h =
    rw (same r, has_guid-map f r.job_guid rs same) (h.0, Distinct-map f rs same h.1)

pub Distinct-mark_loading :
    (c limit : ℕ) (rs : List Row) → Distinct rs → Distinct (mark_loading c limit rs)
unfolding mark_loading
Distinct-mark_loading c limit [] h = h
Distinct-mark_loading c limit (r ∷ rs) h = elim (Bool-cases (ltb 0 limit && claimable r)) [
  | inl e ↦
      rw (e, has_guid-mark_loading c (limit - 1) r.job_guid rs)
        (h.0, Distinct-mark_loading c (limit - 1) rs h.1)
  | inr e ↦
      rw (e, has_guid-mark_loading c limit r.job_guid rs)
        (h.0, Distinct-mark_loading c limit rs h.1)
]

pub has_guid-append :
    (guid : String) (rs : List Row) (r : Row)
    → has_guid guid (rs ++ r ∷ []) ≡ (has_guid guid rs || str_eq r.job_guid guid)
unfolding has_guid
has_guid-append guid [] r = ground arith
has_guid-append guid (q ∷ rs) r = ground (arith, has_guid-append guid rs r)

pub Distinct-append :
    (rs : List Row) (r : Row)
    → has_guid r.job_guid rs ≡ false
    → Distinct rs
    → Distinct (rs ++ r ∷ [])
unfolding has_guid
Distinct-append [] r e h = (refl, tt)
Distinct-append (q ∷ rs) r e h = (
  ground (
    arith,
    has_guid-append q.job_guid rs r,
    eq_iff q.job_guid r.job_guid,
    eq_iff r.job_guid q.job_guid,
  ),
  Distinct-append rs r (ground arith) h.1,
)
