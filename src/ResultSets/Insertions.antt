-- ===== src/ResultSets/Insertions.antt =====
-- The insertions of `store_result_set_data`, treeherder/model/derived/jobs.py: a statement that
-- inserts only what is not there yet, run for a list of rows.
use treeherder_service.Prelude.{
  ℕ, ◌≡◌, refl, ◌∙◌, Bool, true, List, [], ◌∷◌, ◌==◌, ==_iff, eq_refl, exists-append, Bool-cases,
  inl, inr, string_eq, All,
}
use treeherder_service.ResultSets.{Db, HashRow, RevRow, has_hash}
use treeherder_service.ResultSets.Tables.{
  executemany, set_result_set, has_revision, set_revision, has_pair, set_revision_map,
}

-- Every row is one that the table has.
abbrev pub AllIn : {P : Type 0} → (P → Db → Bool) → List P → Db → Type 0
AllIn has ps db = All (λ p. has p db ≡ true) ps

-- A statement by its test: nothing happens where the row is there, afterwards it is there, and no
-- row is lost.
module _ {P : Type 0} (step : P → Db → Db) (has : P → Db → Bool)
    (skips : (p : P) (db : Db) → has p db ≡ true → step p db ≡ db)
    (adds : (p : P) (db : Db) → has p (step p db) ≡ true)
    (keeps : (p q : P) (db : Db) → has q db ≡ true → has q (step p db) ≡ true) where
  executemany-keeps :
      (ps : List P) (q : P) (db : Db) → has q db ≡ true → has q (executemany step ps db) ≡ true
  unfolding executemany
  executemany-keeps [] q db h = h
  executemany-keeps (p ∷ ps) q db h = executemany-keeps ps q (step p db) (keeps p q db h)

  pub executemany-adds : (ps : List P) (db : Db) → AllIn has ps (executemany step ps db)
  unfolding executemany
  executemany-adds [] db = tt
  executemany-adds (p ∷ ps) db =
      (executemany-keeps ps p (step p db) (adds p db), executemany-adds ps (step p db))

  pub executemany-skips : (ps : List P) (db : Db) → AllIn has ps db → executemany step ps db ≡ db
  unfolding executemany
  executemany-skips [] db h = refl
  executemany-skips (p ∷ ps) db (h, hs) = rw (skips p db h) (executemany-skips ps db hs)

-- the tests of the three statements
abbrev pub hash_in : HashRow → Db → Bool
hash_in p db = has_hash p.revision_hash db.result_sets

abbrev pub revision_in : RevRow → Db → Bool
revision_in p db = has_revision p.revision p.repository_id db.revisions

abbrev pub pair_in : ℕ × ℕ → Db → Bool
pair_in p db = has_pair p db.revision_map

set_result_set-skips : (p : HashRow) (db : Db) → hash_in p db ≡ true → set_result_set p db ≡ db
unfolding set_result_set
set_result_set-skips p db h = rw h refl

set_result_set-adds : (p : HashRow) (db : Db) → hash_in p (set_result_set p db) ≡ true
unfolding set_result_set has_hash
set_result_set-adds p db = elim (Bool-cases (hash_in p db)) [
  | inl e ↦ rw e e
  | inr e ↦ rw e (exists-append _ db.result_sets _ ∙ rw (e, eq_refl p.revision_hash) refl)
]

set_result_set-keeps :
    (p q : HashRow) (db : Db) → hash_in q db ≡ true → hash_in q (set_result_set p db) ≡ true
unfolding set_result_set has_hash
set_result_set-keeps p q db h = elim (Bool-cases (hash_in p db)) [
  | inl e ↦ rw e h
  | inr e ↦ rw e (exists-append _ db.result_sets _ ∙ rw h refl)
]

nat_refl : (n : ℕ) → (n == n) ≡ true
nat_refl n = (==_iff n n).1 refl

set_revision-skips : (p : RevRow) (db : Db) → revision_in p db ≡ true → set_revision p db ≡ db
unfolding set_revision
set_revision-skips p db h = rw h refl

set_revision-adds : (p : RevRow) (db : Db) → revision_in p (set_revision p db) ≡ true
unfolding set_revision has_revision
set_revision-adds p db = elim (Bool-cases (revision_in p db)) [
  | inl e ↦ rw e e
  | inr e ↦
      rw e
        (exists-append _ db.revisions _ ∙ rw (e, eq_refl p.revision, nat_refl p.repository_id) refl)
]

set_revision-keeps :
    (p q : RevRow) (db : Db) → revision_in q db ≡ true → revision_in q (set_revision p db) ≡ true
unfolding set_revision has_revision
set_revision-keeps p q db h = elim (Bool-cases (revision_in p db)) [
  | inl e ↦ rw e h
  | inr e ↦ rw e (exists-append _ db.revisions _ ∙ rw h refl)
]

set_revision_map-skips : (p : ℕ × ℕ) (db : Db) → pair_in p db ≡ true → set_revision_map p db ≡ db
unfolding set_revision_map
set_revision_map-skips p db h = rw h refl

set_revision_map-adds : (p : ℕ × ℕ) (db : Db) → pair_in p (set_revision_map p db) ≡ true
unfolding set_revision_map
set_revision_map-adds p db = elim (Bool-cases (pair_in p db)) [
  | inl e ↦ rw e e
  | inr e ↦ rw e (exists-append _ db.revision_map _ ∙ rw (e, nat_refl p.0, nat_refl p.1) refl)
]

set_revision_map-keeps :
    (p q : ℕ × ℕ) (db : Db) → pair_in q db ≡ true → pair_in q (set_revision_map p db) ≡ true
unfolding set_revision_map
set_revision_map-keeps p q db h = elim (Bool-cases (pair_in p db)) [
  | inl e ↦ rw e h
  | inr e ↦ rw e (exists-append _ db.revision_map _ ∙ rw h refl)
]

pub hashes_added :
    (ps : List HashRow) (db : Db) → AllIn hash_in ps (executemany set_result_set ps db)
hashes_added =
    executemany-adds set_result_set hash_in set_result_set-skips set_result_set-adds
      set_result_set-keeps

pub revisions_added :
    (ps : List RevRow) (db : Db) → AllIn revision_in ps (executemany set_revision ps db)
revisions_added =
    executemany-adds set_revision revision_in set_revision-skips set_revision-adds
      set_revision-keeps

pub pairs_added :
    (ps : List (ℕ × ℕ)) (db : Db) → AllIn pair_in ps (executemany set_revision_map ps db)
pairs_added =
    executemany-adds set_revision_map pair_in set_revision_map-skips set_revision_map-adds
      set_revision_map-keeps

pub hashes_skipped :
    (ps : List HashRow) (db : Db) → AllIn hash_in ps db → executemany set_result_set ps db ≡ db
hashes_skipped =
    executemany-skips set_result_set hash_in set_result_set-skips set_result_set-adds
      set_result_set-keeps

pub revisions_skipped :
    (ps : List RevRow) (db : Db) → AllIn revision_in ps db → executemany set_revision ps db ≡ db
revisions_skipped =
    executemany-skips set_revision revision_in set_revision-skips set_revision-adds
      set_revision-keeps

pub pairs_skipped :
    (ps : List (ℕ × ℕ)) (db : Db) → AllIn pair_in ps db → executemany set_revision_map ps db ≡ db
pairs_skipped =
    executemany-skips set_revision_map pair_in set_revision_map-skips set_revision_map-adds
      set_revision_map-keeps
