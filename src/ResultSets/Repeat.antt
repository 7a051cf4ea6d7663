-- ===== src/ResultSets/Repeat.antt =====
-- A push that comes twice, in `store_result_set_data` of treeherder/model/derived/jobs.py.
use treeherder_service.Prelude.{
  ℕ, String, ◌≡◌, refl, ap, ◌∙◌, sym, subst, Bool, true, false, not, none, some, List, [], ◌∷◌, map,
  arith, ltb, eq_refl, keep, contains, string_eq, Bool-cases, inl, inr, All,
}
use treeherder_service.Json.{Result, ok, Holds, Holds-eq, Holds-then, Holds-ok}
use treeherder_service.ResultSets.{
  Db, HashRow, RevRow, ResultSet, PushDatum, Structs, no_structs, add_pushes,
}
use treeherder_service.ResultSets.Tables.{
  Stored, executemany, set_result_set, set_revision, set_revision_map, get_result_set_ids,
  get_revisions, map_rows, inserted, store_structs, store_result_set_data,
}
use treeherder_service.ResultSets.Insertions.{
  AllIn, hash_in, revision_in, pair_in, hashes_added, revisions_added, pairs_added, hashes_skipped,
  revisions_skipped, pairs_skipped,
}

-- a host that shows the tables of the master, without any lag
abbrev master : Db → Db
master db = db

-- A part of the tables that a statement leaves alone stays under many runs of it.
executemany-frame {κ} :
    {P : Type 0} {B : Type κ} (part : Db → B) (step : P → Db → Db)
    → ((p : P) (db : Db) → part (step p db) ≡ part db)
    → (ps : List P) (db : Db) → part (executemany step ps db) ≡ part db
unfolding executemany
executemany-frame part step same [] db = refl
executemany-frame part step same (p ∷ ps) db =
    executemany-frame part step same ps (step p db) ∙ same p db

set_revision-result_sets : (p : RevRow) (db : Db) → (set_revision p db).result_sets ≡ db.result_sets
unfolding set_revision
set_revision-result_sets p db = ground arith

set_revision_map-result_sets :
    (p : ℕ × ℕ) (db : Db) → (set_revision_map p db).result_sets ≡ db.result_sets
unfolding set_revision_map
set_revision_map-result_sets p db = ground arith

set_revision_map-revisions :
    (p : ℕ × ℕ) (db : Db) → (set_revision_map p db).revisions ≡ db.revisions
unfolding set_revision_map
set_revision_map-revisions p db = ground arith

AllIn-hashes :
    (ps : List HashRow) (db db2 : Db)
    → db.result_sets ≡ db2.result_sets
    → AllIn hash_in ps db
    → AllIn hash_in ps db2
AllIn-hashes [] db db2 e h = tt
AllIn-hashes (p ∷ ps) db db2 e (h, hs) = (rw (sym e) h, AllIn-hashes ps db db2 e hs)

AllIn-revisions :
    (ps : List RevRow) (db db2 : Db)
    → db.revisions ≡ db2.revisions
    → AllIn revision_in ps db
    → AllIn revision_in ps db2
AllIn-revisions [] db db2 e h = tt
AllIn-revisions (p ∷ ps) db db2 e (h, hs) = (rw (sym e) h, AllIn-revisions ps db db2 e hs)

keep-none {ℓ} :
    {A : Type ℓ} (p : A → Bool) (xs : List A) → All (λ x. p x ≡ false) xs → keep p xs ≡ []
keep-none p [] h = refl
keep-none p (x ∷ xs) (h, hs) = rw h (keep-none p xs hs)

contained :
    (xs : List (String × ResultSet)) (names : List String)
    → ((k : String) → contains k (map (λ b. b.0) xs) ≡ true → contains k names ≡ true)
    → All (λ (e : String × ResultSet). not (contains e.0 names) ≡ false) xs
contained [] names h = tt
contained ((k, r) ∷ xs) names h =
    (rw (h k (rw (eq_refl k) refl)) refl, contained xs names (λ j c. h j (ground (arith, c))))

inserted-same : (sets : List (String × ResultSet)) → inserted sets sets ≡ []
unfolding inserted
inserted-same sets =
    ap (map (λ e. e.1.id)) (keep-none _ sets (contained sets (map (λ b. b.0) sets) (λ k c. c)))

-- The answer of a push that is stored already.
abbrev pub again : Stored → Stored
again s = record {
  result_set_ids = s.result_set_ids;
  revision_ids = s.revision_ids;
  inserted_result_set_ids = [];
  db = s.db;
}

-- The statements on tables that have all the rows change nothing.
settled :
    (lastrowid : ℕ) (st : Structs) (db : Db) (pairs : List (ℕ × ℕ))
    → AllIn hash_in st.hash_rows db
    → AllIn revision_in st.rev_rows db
    → AllIn pair_in pairs db
    → map_rows
        (get_revisions (map (λ p. p.revision) st.rev_rows) db.revisions)
        st.rhash_of
        (get_result_set_ids (map (λ p. p.revision_hash) st.hash_rows) db.result_sets)
      ≡ ok pairs
    → store_structs master lastrowid st db
      ≡ ok (record {
        result_set_ids =
            get_result_set_ids (map (λ p. p.revision_hash) st.hash_rows) db.result_sets;
        revision_ids = get_revisions (map (λ p. p.revision) st.rev_rows) db.revisions;
        inserted_result_set_ids = [];
        db = db;
      })
unfolding store_structs
settled lastrowid st db pairs h r p m =
    let same = hashes_skipped st.hash_rows db h in
    let same2 = revisions_skipped st.rev_rows db r in
    rw (same, same2, m, pairs_skipped pairs db p)
      (rw
        (inserted-same
          (get_result_set_ids (map (λ p. p.revision_hash) st.hash_rows) db.result_sets))
        (elim (Bool-cases (ltb 0 lastrowid)) [ inl e ↦ rw e refl | inr e ↦ rw e refl ]))

stored_again :
    (later : ℕ) (st : Structs) (db1 db2 : Db) (pairs : List (ℕ × ℕ))
    → db2.result_sets ≡ db1.result_sets
    → AllIn hash_in st.hash_rows db1
    → AllIn revision_in st.rev_rows db2
    → map_rows
        (get_revisions (map (λ p. p.revision) st.rev_rows) db2.revisions)
        st.rhash_of
        (get_result_set_ids (map (λ p. p.revision_hash) st.hash_rows) db1.result_sets)
      ≡ ok pairs
    → store_structs master later st (executemany set_revision_map pairs db2)
      ≡ ok (record {
        result_set_ids =
            get_result_set_ids (map (λ p. p.revision_hash) st.hash_rows) db1.result_sets;
        revision_ids = get_revisions (map (λ p. p.revision) st.rev_rows) db2.revisions;
        inserted_result_set_ids = [];
        db = executemany set_revision_map pairs db2;
      })
stored_again later st db1 db2 pairs same h r m =
    let db3 = executemany set_revision_map pairs db2 in
    let sets : db3.result_sets ≡ db1.result_sets =
      executemany-frame (λ d. d.result_sets) set_revision_map set_revision_map-result_sets pairs db2
      ∙ same in
    let revs : db3.revisions ≡ db2.revisions =
      executemany-frame (λ d. d.revisions) set_revision_map set_revision_map-revisions pairs db2 in
    settled later st db3 pairs (AllIn-hashes st.hash_rows db1 db3 (sym sets) h)
      (AllIn-revisions st.rev_rows db2 db3 (sym revs) r) (pairs_added pairs db2) (rw (sets, revs) m)
    ∙ rw (sets, revs) refl

store_structs-again :
    (lastrowid later : ℕ) (st : Structs) (db : Db)
    → Holds
        (λ s. store_structs master later st s.db ≡ ok (again s))
        (store_structs master lastrowid st db)
unfolding store_structs
store_structs-again lastrowid later st db =
    let db1 = executemany set_result_set st.hash_rows db in
    let db2 = executemany set_revision st.rev_rows db1 in
    Holds-eq _ _ _ (λ pairs m.
      stored_again later st db1 db2 pairs
        (executemany-frame (λ d. d.result_sets) set_revision set_revision-result_sets st.rev_rows
          db1)
        (hashes_added st.hash_rows db) (revisions_added st.rev_rows db1) m)

abbrev pub Later : Structs → Stored → Type 0
Later st s = (later : ℕ) → store_structs master later st s.db ≡ ok (again s)

add_pushes-again :
    (ask : String → Result ℕ) (lastrowid later : ℕ) (d : PushDatum) (ds : List PushDatum) (db : Db)
    → Holds
        (λ o. elim o [
          | none ↦ true ≡ true
          | some s ↦ store_result_set_data ask master later (d ∷ ds) s.db ≡ ok (some (again s))
        ])
        (store_result_set_data ask master lastrowid (d ∷ ds) db)
unfolding store_result_set_data
add_pushes-again ask lastrowid later d ds db =
    Holds-eq _ (add_pushes ask (d ∷ ds) no_structs) _ (λ st m.
      Holds-then (λ s. store_structs master later st s.db ≡ ok (again s)) _
        (store_structs master lastrowid st db) _ (store_structs-again lastrowid later st db)
        (λ s e. rw m (rw e refl)))

again_on_master :
    (ask : String → Result ℕ) (lastrowid later : ℕ) (ds : List PushDatum) (db : Db) (s : Stored)
    → store_result_set_data ask master lastrowid ds db ≡ ok (some s)
    → store_result_set_data ask master later ds s.db ≡ ok (some (again s))
unfolding store_result_set_data
again_on_master ask lastrowid later [] db s h = cc
again_on_master ask lastrowid later (d ∷ ds) db s h =
    Holds-ok _ _ (some s) h (add_pushes-again ask lastrowid later d ds db)

-- Where the host that is read does not lag, a push that is stored a second time changes no table. It is
-- answered with the same ids of result sets and revisions, and with no inserted ones, whatever the row
-- id of the cursor.
pub store_result_set_data-again :
    (ask : String → Result ℕ) (read_host : Db → Db) (lastrowid later : ℕ) (ds : List PushDatum)
    (db : Db) (s : Stored)
    → ((d : Db) → read_host d ≡ d)
    → store_result_set_data ask read_host lastrowid ds db ≡ ok (some s)
    → store_result_set_data ask read_host later ds s.db ≡ ok (some (again s))
store_result_set_data-again ask read_host lastrowid later ds db s no_lag =
    let same : read_host ≡ master = λ i d. no_lag d i in
    subst
      (λ (host : Db → Db).
        store_result_set_data ask host lastrowid ds db ≡ ok (some s)
        → store_result_set_data ask host later ds s.db ≡ ok (some (again s)))
      (sym same) (again_on_master ask lastrowid later ds db s)
