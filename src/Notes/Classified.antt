-- ===== src/Notes/Classified.antt =====
-- Each job has the classification of its newest note.
use treeherder_service.Prelude.{
  ℕ, String, ◌≡◌, ◌≢◌, refl, ap, true, false, not, none, List, [], ◌∷◌, ◌++◌, map, keep, exists,
  ◌==◌, All, Bool-cases, inl, inr, arith,
}
use treeherder_service.Json.{Holds, Holds-bind, Holds-then, Holds-if}
use treeherder_service.Notes.{
  Job, Note, Db, Newest, is_job, is_on, classification_of, classify, update_last_job_classification,
  insert_note, insert_job_note, delete_job_note, Config, transfer,
}

-- a job with notes has the classification of the newest one
abbrev pub IsClassified : Newest → List Note → Job → Type 0
IsClassified newest notes j =
    keep (is_on j.id) notes ≢ []
    → j.failure_classification_id ≡ classification_of (newest.first (keep (is_on j.id) notes))

-- where the notes of all jobs but one are as they were, and that one is classified, all are
classify-IsClassified :
    (newest : Newest) (old notes : List Note) (id : ℕ) (j : Job)
    → ((k : ℕ) → k == id ≡ false → keep (is_on k) notes ≡ keep (is_on k) old)
    → IsClassified newest old j
    → IsClassified newest notes (classify newest notes id j)
unfolding classify
classify-IsClassified newest old notes id j same h = elim (Bool-cases (is_job id j)) [
  | inl e ↦ rw e (λ some_notes. refl)
  | inr e ↦ rw e (rw (same j.id e) h)
]

map-classify :
    (newest : Newest) (old notes : List Note) (id : ℕ) (jobs : List Job)
    → ((k : ℕ) → k == id ≡ false → keep (is_on k) notes ≡ keep (is_on k) old)
    → All (IsClassified newest old) jobs
    → All (IsClassified newest notes) (map (classify newest notes id) jobs)
map-classify newest old notes id [] same h = tt
map-classify newest old notes id (j ∷ jobs) same h = (
  classify-IsClassified newest old notes id j same h.0,
  map-classify newest old notes id jobs same h.1,
)

keep-snoc :
    (k : ℕ) (n : Note) (notes : List Note)
    → is_on k n ≡ false
    → keep (is_on k) (notes ++ n ∷ []) ≡ keep (is_on k) notes
keep-snoc k n [] e = rw e refl
keep-snoc k n (m ∷ notes) e = elim (Bool-cases (is_on k m)) [
  | inl f ↦ rw f (ap (λ ns. m ∷ ns) (keep-snoc k n notes e))
  | inr f ↦ rw f (keep-snoc k n notes e)
]

-- a note that is deleted is on the job that is given
abbrev pub OnlyOn : ℕ → ℕ → List Note → Type 0
OnlyOn note_id job_id notes = All (λ n. n.id == note_id ≡ true → n.job_id ≡ job_id) notes

keep-deleted :
    (k note_id job_id : ℕ) (notes : List Note)
    → k == job_id ≡ false
    → OnlyOn note_id job_id notes
    → keep (is_on k) (keep (λ n. not (n.id == note_id)) notes) ≡ keep (is_on k) notes
keep-deleted k note_id job_id [] e h = refl
keep-deleted k note_id job_id (n ∷ notes) e h = elim (Bool-cases (n.id == note_id)) [
  | inl f ↦
      let off : is_on k n ≡ false = rw (h.0 f) (ground (arith, e)) in
      rw (f, off) (keep-deleted k note_id job_id notes e h.1)
  | inr f ↦ rw f (elim (Bool-cases (is_on k n)) [
    | inl g ↦ rw g (ap (λ ns. n ∷ ns) (keep-deleted k note_id job_id notes e h.1))
    | inr g ↦ rw g (keep-deleted k note_id job_id notes e h.1)
  ])
]

abbrev pub AllClassified : Newest → Db → Type 0
AllClassified newest db = All (IsClassified newest db.notes) db.jobs

insert_note-classified :
    (newest : Newest) (id c : ℕ) (who note : String) (now : ℕ) (db : Db)
    → AllClassified newest db
    → Holds
        (λ after. AllClassified newest (update_last_job_classification newest id after))
        (insert_note id c who note now db)
unfolding insert_note update_last_job_classification
insert_note-classified newest id c who note now db h =
    Holds-if _ (exists (is_job id) db.jobs) _ _
      (map-classify newest db.notes _ id db.jobs (λ k e. keep-snoc k _ db.notes (ground (arith, e)))
        h)
      tt

-- Where each job with notes has the classification of its newest note, a new note leaves it so.
insert_job_note-AllClassified :
    (newest : Newest) (config : Config) (id c : ℕ) (who note : String) (now : ℕ) (db : Db)
    → AllClassified newest db
    → Holds (λ t. AllClassified newest t.0) (insert_job_note newest config id c who note now db)
unfolding insert_job_note
insert_job_note-AllClassified newest config id c who note now db h =
    Holds-then (λ after. AllClassified newest (update_last_job_classification newest id after)) _
      (insert_note id c who note now db) _ (insert_note-classified newest id c who note now db h)
      (λ after k. Holds-bind _ (transfer config id _ _) _ (λ tasks. k))

delete_job_note-AllClassified :
    (newest : Newest) (note_id job_id : ℕ) (db : Db)
    → OnlyOn note_id job_id db.notes
    → AllClassified newest db
    → AllClassified newest (delete_job_note newest note_id job_id db)
unfolding delete_job_note update_last_job_classification
delete_job_note-AllClassified newest note_id job_id db o h =
    map-classify newest db.notes _ job_id db.jobs
      (λ k e. keep-deleted k note_id job_id db.notes e o) h

-- Where each job with notes has the classification of its newest note, it has it after a new note, if
-- that is stored, and after the deletion of a note that stands on no other job than the given one.
pub notes-AllClassified :
    (newest : Newest) (config : Config) (note_id id c : ℕ) (who note : String) (now : ℕ) (db : Db)
    → OnlyOn note_id id db.notes
    → AllClassified newest db
    → Holds (λ t. AllClassified newest t.0) (insert_job_note newest config id c who note now db)
      × AllClassified newest (delete_job_note newest note_id id db)
notes-AllClassified newest config note_id id c who note now db o h = (
  insert_job_note-AllClassified newest config id c who note now db h,
  delete_job_note-AllClassified newest note_id id db o h,
)

abbrev pub IsUnset : ℕ → List Note → Job → Type 0
IsUnset id notes j =
    is_job id j ≡ true → keep (is_on j.id) notes ≡ [] → j.failure_classification_id ≡ none

classify-IsUnset :
    (newest : Newest) (notes : List Note) (id : ℕ) (j : Job)
    → IsUnset id notes (classify newest notes id j)
unfolding classify
classify-IsUnset newest notes id j = elim (Bool-cases (is_job id j)) [
  | inl e ↦ rw e (λ q no_notes. rw (no_notes, newest.first_of_none) refl)
  | inr e ↦ rw e (λ q no_notes. absurd (ground (arith, e, q)))
]

map-classify-IsUnset :
    (newest : Newest) (notes : List Note) (id : ℕ) (jobs : List Job)
    → All (IsUnset id notes) (map (classify newest notes id) jobs)
map-classify-IsUnset newest notes id [] = tt
map-classify-IsUnset newest notes id (j ∷ jobs) =
    (classify-IsUnset newest notes id j, map-classify-IsUnset newest notes id jobs)

-- After the deletion of its last note a job has no classification, not the default one.
pub delete_job_note-IsUnset :
    (newest : Newest) (note_id id : ℕ) (db : Db)
    → All
        (IsUnset id (delete_job_note newest note_id id db).notes)
        (delete_job_note newest note_id id db).jobs
unfolding delete_job_note update_last_job_classification
delete_job_note-IsUnset newest note_id id db =
    map-classify-IsUnset newest (keep (λ n. not (n.id == note_id)) db.notes) id db.jobs
