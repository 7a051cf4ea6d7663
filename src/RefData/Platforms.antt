-- ===== src/RefData/Platforms.antt =====
-- process_platforms and set_all_reference_data of treeherder/model/derived/refdata.py: the ids of all
-- that was collected.
use treeherder_service.Prelude.{
  ℕ, String, ◌≡◌, refl, ap, sym, ◌∙◌, true, ◌&&◌, ◌||◌, List, [], ◌∷◌, All, Bool-cases, inl, inr,
  arith, str_eq, eq_iff, eq_refl, insert, contains, string_eq,
}
use treeherder_service.Json.{Result, ok, err}
use treeherder_service.RefData.{Collected, has_key}
use treeherder_service.RefData.Tables.{Row, Table, same, create_rows, clauses, is_one_of, get_rows}
use treeherder_service.RefData.Process.{
  put_all, id_of, set_ids, set_id, platform_key, no_ids_yet, process_platforms,
}
use treeherder_service.RefData.Linked.{Linked, linked, keys, keys_of}
use treeherder_service.RefData.Written.{IsActive, same→eq, clauses-concat}
use treeherder_service.RefData.Found.{AllHeld, written-AllHeld}

has_key-insert {ℓ} :
    {A : Type ℓ} (k j : String) (v : A) (d : List (String × A))
    → has_key k d ≡ true
    → has_key k (insert j v d) ≡ true
unfolding insert
has_key-insert k j v [] h = ground (arith, h)
has_key-insert k j v ((i, w) ∷ d) h =
    ground (arith, h, has_key-insert k j v d, eq_iff i j, eq_iff i k, eq_iff j k)

abbrev HasKeys : List (String × ℕ) → List Row → Type 0
HasKeys d [] = Unit
HasKeys d (r ∷ rs) = (has_key (platform_key r.columns) d ≡ true) × HasKeys d rs

HasKeys-insert :
    (j : String) (v : ℕ) (d : List (String × ℕ)) (rs : List Row)
    → HasKeys d rs
    → HasKeys (insert j v d) rs
HasKeys-insert j v d [] h = tt
HasKeys-insert j v d (r ∷ rs) h =
    (has_key-insert (platform_key r.columns) j v d h.0, HasKeys-insert j v d rs h.1)

set_ids-put_all :
    (rs : List Row) (d : List (String × ℕ))
    → HasKeys d rs
    → set_ids rs d ≡ ok (put_all platform_key id_of rs d)
unfolding set_ids set_id put_all
set_ids-put_all [] d h = refl
set_ids-put_all (r ∷ rs) d h = rw h.0 (
    set_ids-put_all rs (insert (platform_key r.columns) r.id d)
      (HasKeys-insert (platform_key r.columns) r.id d rs h.1))

-- the keys of the entries are there
has_key-keys {ℓ} :
    {A : Type ℓ} (k : String) (d : List (String × A)) → has_key k d ≡ contains k (keys d)
has_key-keys k [] = refl
has_key-keys k ((j, v) ∷ d) = ap (λ b. str_eq j k || b) (has_key-keys k d)

keys-no_ids_yet : (entries : List (String × List String)) → keys (no_ids_yet entries) ≡ keys entries
unfolding no_ids_yet
keys-no_ids_yet [] = refl
keys-no_ids_yet ((k, v) ∷ entries) = ap (λ ks. k ∷ ks) (keys-no_ids_yet entries)

contains-keys_of :
    (key : List String → String) (cs : List String) (css : List (List String))
    → is_one_of cs css ≡ true
    → contains (key cs) (keys_of key css) ≡ true
unfolding is_one_of keys_of
contains-keys_of key cs [] h = h
contains-keys_of key cs (ds ∷ css) h = elim (Bool-cases (same cs ds)) [
  | inl e ↦
      let q : str_eq (key ds) (key cs) ≡ true = rw (same→eq cs ds e) (eq_refl (key ds)) in
      ground (arith, q)
  | inr e ↦ ground (arith, contains-keys_of key cs css (rw e at h))
]

get_rows-HasKeys :
    (css : List (List String)) (d : List (String × ℕ)) (rows : List Row)
    → keys d ≡ keys_of platform_key css
    → HasKeys d (get_rows css rows)
unfolding get_rows
get_rows-HasKeys css d [] e = tt
get_rows-HasKeys css d (r ∷ rs) e = elim (Bool-cases (r.active && is_one_of r.columns css)) [
  | inl q ↦ rw q (
    has_key-keys (platform_key r.columns) d
        ∙ ap (contains (platform_key r.columns)) e
        ∙ contains-keys_of platform_key r.columns css (ground arith),
    get_rows-HasKeys css d rs e,
  )
  | inr q ↦ rw q (get_rows-HasKeys css d rs e)
]

-- The platforms are processed without an exception, and each key has the id of its row.
abbrev pub PlatformsHeld : List String → Result (List (String × ℕ) × Table) → Type 0
PlatformsHeld ks (err e) = ⊥
PlatformsHeld ks (ok (ids, t)) = AllHeld platform_key id_of t.rows ids ks

pub process_platforms-AllHeld :
    (c : Collected) (t : Table)
    → Linked platform_key 3 c
    → All IsActive t.rows
    → PlatformsHeld (keys c.entries) (process_platforms c t)
unfolding process_platforms keys_of
process_platforms-AllHeld c t (linked [] entries [] ps us k p u f w) a = rw k tt
process_platforms-AllHeld c t (linked (cs ∷ css) entries [] ps us k p u f w) a =
    absurd (omega (arith, f))
process_platforms-AllHeld c t (linked css entries (g ∷ gs) ps us k p u f w) a =
    let written = create_rows 3 ps t in
    let asked = ap (clauses 3 (g ∷ gs)) u ∙ clauses-concat 3 css (g ∷ gs) f w in
    rw
      (set_ids-put_all (get_rows (clauses 3 (g ∷ gs) us) written.rows) (no_ids_yet entries) (
        get_rows-HasKeys (clauses 3 (g ∷ gs) us) (no_ids_yet entries) written.rows
          (keys-no_ids_yet entries ∙ k ∙ ap (keys_of platform_key) (sym asked))))
      (written-AllHeld platform_key id_of 3 css ps (g ∷ gs) us (keys entries) t (no_ids_yet entries)
        k p u f w a)
