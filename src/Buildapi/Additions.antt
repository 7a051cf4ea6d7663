-- ===== src/Buildapi/Additions.antt =====
-- What the steps of the transformation of pending jobs in treeherder/etl/buildapi.py add to the jobs
-- and to the revisions that are fetched again, next to the jobs and revisions that are to be added.
use treeherder_service.Prelude.{
  String, ◌≡◌, refl, sym, ap, ◌∙◌, Bool, true, false, ◌&&◌, ◌||◌, not, Option, none, some, List, [],
  ◌∷◌, ◌++◌, map, if◌then◌else◌, str_eq, lookup, lookup-insert, contains, contains-snoc, string_eq,
  arith, eq_iff, eq_refl, Bool-cases, inl, inr, append_assoc, append-nil,
}
use treeherder_service.Buildapi.Queued.{
  ResultSet, RevisionsLookup, Missing, or_empty, add_missing, missing_revision, in_project, NewJob,
  Source, Collections, add_job,
}

abbrev pub is_none {ℓ} : {A : Type ℓ} → Option A → Bool
is_none none = true
is_none (some a) = false

-- the reference: the result set of a revision
unfoldable pub find_in : String → Option (List (String × ResultSet)) → Option ResultSet
find_in revision none = none
find_in revision (some resultset_lookup) = lookup revision resultset_lookup

unfoldable pub resultset_of : RevisionsLookup → String → String → Option ResultSet
unfolding find_in
resultset_of l project revision = find_in revision (lookup project l)

abbrev pub jobs_in : String → Collections → List NewJob
jobs_in project cs = or_empty (lookup project cs)

abbrev pub missing_in : String → Missing → List String
missing_in project missing = or_empty (lookup project missing)

module _ {ℓ} {A : Type ℓ} (f : String → ResultSet → A → NewJob) (l : RevisionsLookup) where
  unfoldable pub jobs_found : String → List A → Option ResultSet → List NewJob
  jobs_found project jobs none = []
  jobs_found project jobs (some rs) = map (f project rs) jobs

  unfoldable pub jobs_of_revisions : String → List (String × List A) → List NewJob
  unfolding jobs_found resultset_of
  jobs_of_revisions project [] = []
  jobs_of_revisions project ((revision, jobs) ∷ revisions) =
      jobs_found project jobs (resultset_of l project revision)
      ++ jobs_of_revisions project revisions

  -- the jobs of a project whose revisions have result sets, in order
  unfoldable pub jobs_of : String → Source A → List NewJob
  unfolding jobs_of_revisions
  jobs_of project [] = []
  jobs_of project ((q, revisions) ∷ rest) =
      (if str_eq q project then jobs_of_revisions q revisions else []) ++ jobs_of project rest

-- the reference: a revision that is fetched again is not in the lookup of its project
unfoldable pub unknown_in : String → Option (List (String × ResultSet)) → Bool
unknown_in revision none = false
unknown_in revision (some resultset_lookup) =
    is_none (lookup revision resultset_lookup) && not (str_eq revision "Unknown")

unfoldable pub missing_among {ℓ} :
    {A : Type ℓ} → RevisionsLookup → String → String → List (String × List A) → Bool
unfolding unknown_in
missing_among l q r [] = false
missing_among l q r ((revision, jobs) ∷ revisions) =
    str_eq revision r && unknown_in revision (lookup q l) || missing_among l q r revisions

unfoldable pub is_missing {ℓ} : {A : Type ℓ} → RevisionsLookup → String → String → Source A → Bool
unfolding missing_among
is_missing l project r [] = false
is_missing l project r ((q, revisions) ∷ rest) =
    str_eq q project && missing_among l q r revisions || is_missing l project r rest

-- the project q has these jobs more, the others have what they had
abbrev pub Adds : String → List NewJob → Collections → Collections → Type 0
Adds q jobs cs ds =
    (project : String)
    → jobs_in project ds ≡ jobs_in project cs ++ (if str_eq q project then jobs else [])

pub none-Adds : (q : String) (cs : Collections) → Adds q [] cs cs
none-Adds q cs project = elim (Bool-cases (str_eq q project)) [
  | inl e ↦ rw e (sym (append-nil _))
  | inr e ↦ rw e (sym (append-nil _))
]

pub more-Adds :
    (q : String) (xs ys : List NewJob) (cs ds es : Collections)
    → Adds q xs cs ds
    → Adds q ys ds es
    → Adds q (xs ++ ys) cs es
more-Adds q xs ys cs ds es h k project = elim (Bool-cases (str_eq q project)) [
  | inl e ↦ rw e (
      (rw e at (k project))
      ∙ ap (λ js. js ++ ys) (rw e at (h project))
      ∙ append_assoc (jobs_in project cs) xs ys)
  | inr e ↦ rw e ((rw e at (k project)) ∙ append-nil (jobs_in project ds) ∙ (rw e at (h project)))
]

pub add_job-Adds :
    (q : String) (job : NewJob) (cs : Collections) → Adds q (job ∷ []) cs (add_job q job cs)
unfolding add_job
add_job-Adds q job cs project =
    ap or_empty (lookup-insert q project (or_empty (lookup q cs) ++ job ∷ []) cs)
    ∙ elim (Bool-cases (str_eq q project)) [
      | inl e ↦ rw e (rw (← (eq_iff q project).0 e) refl)
      | inr e ↦ rw e (sym (append-nil _))
    ]

-- the project q has the revisions r of which p holds more, as ones that are fetched again
abbrev pub AddsMissing : String → (String → Bool) → Missing → Missing → Type 0
AddsMissing q p m n =
    (project r : String)
    → contains r (missing_in project n)
      ≡ (contains r (missing_in project m) || str_eq q project && p r)

add_to_set :
    (v r : String) (xs : List String)
    → contains r (if contains v xs then xs else xs ++ v ∷ []) ≡ (contains r xs || str_eq v r)
add_to_set v r xs = elim (Bool-cases (str_eq v r)) [
  | inl e ↦ rw ((eq_iff v r).0 e) (ground (arith, contains-snoc r r xs, eq_refl r))
  | inr e ↦ ground (arith, e, contains-snoc r v xs)
]

add_missing-AddsMissing :
    (q revision : String) (m : Missing)
    → AddsMissing q (λ r. str_eq revision r) m (add_missing q revision m)
unfolding add_missing
add_missing-AddsMissing q revision m project r =
    let xs = missing_in q m in
    ap (λ o. contains r (or_empty o))
      (lookup-insert q project (if contains revision xs then xs else xs ++ revision ∷ []) m)
    ∙ elim (Bool-cases (str_eq q project)) [
      | inl e ↦ rw e (rw (← (eq_iff q project).0 e) (add_to_set revision r xs))
      | inr e ↦ ground (arith, e)
    ]

fetch-AddsMissing :
    (q revision : String) (o : Option ResultSet) (m : Missing)
    → ((missing_revision q revision o m).0 ≡ o)
      × AddsMissing q
          (λ r. str_eq revision r && (is_none o && not (str_eq revision "Unknown")))
          m
          (missing_revision q revision o m).1
unfolding missing_revision
fetch-AddsMissing q revision (some rs) m = (refl, λ project r. ground arith)
fetch-AddsMissing q revision none m = elim (Bool-cases (str_eq revision "Unknown")) [
  | inl e ↦ rw e (refl, λ project r. ground arith)
  | inr e ↦ rw e (refl, λ project r. ground (arith, add_missing-AddsMissing q revision m project r))
]

pub in_project-AddsMissing :
    (q revision : String) (o : Option (List (String × ResultSet))) (m : Missing)
    → ((in_project q revision o m).0 ≡ find_in revision o)
      × AddsMissing q
          (λ r. str_eq revision r && unknown_in revision o)
          m
          (in_project q revision o m).1
unfolding in_project find_in unknown_in
in_project-AddsMissing q revision none m = (refl, λ project r. ground arith)
in_project-AddsMissing q revision (some d) m = fetch-AddsMissing q revision (lookup revision d) m

pub both-AddsMissing :
    (q : String) (p1 p2 : String → Bool) (m n o : Missing)
    → AddsMissing q p1 m n
    → AddsMissing q p2 n o
    → AddsMissing q (λ r. p1 r || p2 r) m o
both-AddsMissing q p1 p2 m n o h k project r = ground (arith, h project r, k project r)
