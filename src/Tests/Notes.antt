-- ===== src/Tests/Notes.antt =====
-- The theorems on notes and bugs of jobs, at concrete inputs.
use treeherder_service.Prelude.{
  ℕ, ◌≤◌, ◌≡◌, refl, ap, ◌∙◌, true, Option, none, some, List, [], ◌∷◌, All, arith, leb,
  if◌then◌else◌, Bool-cases, inl, inr, leb→le,
}
use treeherder_service.Json.{ok, Holds}
use treeherder_service.Notes.{
  Note, Db, Newest, Config, insert_job_note, delete_job_note, insert_note,
  update_last_job_classification, classify, transfer, transfers_of, get_job, build_star_note,
}
use treeherder_service.Notes.Classified.{
  AllClassified, notes-AllClassified, IsUnset, delete_job_note-IsUnset,
}

-- the first of the newest notes
abbrev newer : Note → Option Note → Note
newer n none = n
newer n (some m) = if leb m.note_timestamp n.note_timestamp then n else m

first : List Note → Option Note
first [] = none
first (n ∷ ns) = some (newer n (first ns))

All-le :
    (s t : ℕ) (ns : List Note)
    → s ≤ t
    → All (λ x. x.note_timestamp ≤ s) ns
    → All (λ x. x.note_timestamp ≤ t) ns
All-le s t [] h a = tt
All-le s t (n ∷ ns) h a = (omega (arith, h, a.0), All-le s t ns h a.1)

first-newest :
    (n : Note) (ns : List Note)
    → (m : Note) × (first (n ∷ ns) ≡ some m)
      × All (λ x. x.note_timestamp ≤ m.note_timestamp) (n ∷ ns)
unfolding first
first-newest n [] = (n, refl, (omega arith, tt))
first-newest n (o ∷ ns) =
    let (m, e, a) = first-newest o ns in
    elim (Bool-cases (leb m.note_timestamp n.note_timestamp)) [
      | inl f ↦ (
        n,
        ap (λ x. some (newer n x)) e ∙ rw f refl,
        (
          omega arith,
          All-le m.note_timestamp n.note_timestamp (o ∷ ns)
              (leb→le m.note_timestamp n.note_timestamp f) a,
        ),
      )
      | inr f ↦ (m, ap (λ x. some (newer n x)) e ∙ rw f refl, (ground arith, a))
    ]

first_of_none : first [] ≡ none
unfolding first
first_of_none = refl

abbrev newest : Newest
newest = record { first = first; first_of_none = first_of_none; first_newest = first-newest }

abbrev config : Config
config = record { transfer_enabled = true; build_system_type = "buildbot" }

abbrev old : Note
old = record {
  id = 1;
  job_id = 4;
  failure_classification_id = some 2;
  who = "me";
  note = "known";
  note_timestamp = 5;
}

abbrev db : Db
db = record {
  jobs = record { id = 4; state = "completed"; failure_classification_id = some 2 } ∷ [];
  notes = old ∷ [];
  next_note_id = 2;
  bug_job_map = [];
}

abbrev noted : Db
noted = record {
  jobs = record { id = 4; state = "completed"; failure_classification_id = some 3 } ∷ [];
  notes =
      old
      ∷ (record {
        id = 2;
        job_id = 4;
        failure_classification_id = some 3;
        who = "you";
        note = "fixed";
        note_timestamp = 6;
      })
      ∷ [];
  next_note_id = 3;
  bug_job_map = [];
}

note_is_stored :
    insert_job_note newest config 4 3 "you" "fixed" 6 db
    ≡ ok (noted, build_star_note 4 "you" 3 "fixed" ∷ [])
unfolding insert_job_note insert_note update_last_job_classification classify transfer transfers_of
    get_job first
note_is_stored = refl

notes-AllClassified_example :
    Holds (λ t. AllClassified newest t.0) (insert_job_note newest config 4 3 "you" "fixed" 6 db)
    × AllClassified newest (delete_job_note newest 1 4 db)
unfolding first
notes-AllClassified_example =
    notes-AllClassified newest config 1 4 3 "you" "fixed" 6 db ((λ e. refl), tt)
      ((λ some_notes. refl), tt)

delete_job_note-IsUnset_example :
    All (IsUnset 4 (delete_job_note newest 1 4 db).notes) (delete_job_note newest 1 4 db).jobs
delete_job_note-IsUnset_example = delete_job_note-IsUnset newest 1 4 db
