-- ===== src/Buildapi/Delivered.antt =====
-- Which jobs the transformation of pending jobs in treeherder/etl/buildapi.py delivers, and which
-- revisions it has fetched again.
use treeherder_service.Prelude.{
  String, ◌≡◌, refl, sym, ap, ◌∙◌, ◌&&◌, ◌||◌, Option, none, some, List, [], ◌∷◌, ◌++◌, map,
  if◌then◌else◌, str_eq, lookup, contains, string_eq, arith, append_assoc, append-nil, subst,
}
use treeherder_service.Json.{Result, ok, err, ◌>>=◌, Returns, Returns-then, Returns-map}
use treeherder_service.Guid.{Printing}
use treeherder_service.Buildapi.Queued.{
  ResultSet, RevisionsLookup, Missing, in_project, get_resultset, Buildbot, NewJob, PendingJob,
  new_job, pending_job, Source, Collections, add_job, add_jobs, add_found, add_revisions,
  add_projects, revision_dict, Web, lookup_revisions, transform_pending,
}
use treeherder_service.Buildapi.Additions.{
  Adds, AddsMissing, add_job-Adds, both-AddsMissing, find_in, in_project-AddsMissing, is_missing,
  jobs_found, jobs_in, jobs_of, jobs_of_revisions, missing_among, missing_in, more-Adds, none-Adds,
  resultset_of, unknown_in,
}

module _ {ℓ} {A : Type ℓ} (make : String → ResultSet → A → Result NewJob)
    (f : String → ResultSet → A → NewJob)
    (total : (q : String) (rs : ResultSet) (j : A) → make q rs j ≡ ok (f q rs j))
    (l : RevisionsLookup) where
  add_jobs-Adds :
      (q : String) (rs : ResultSet) (jobs : List A) (cs : Collections)
      → Returns (Adds q (map (f q rs) jobs) cs) (add_jobs make l q rs jobs cs)
  unfolding add_jobs
  add_jobs-Adds q rs [] cs = none-Adds q cs
  add_jobs-Adds q rs (j ∷ jobs) cs = rw (total q rs j) (
      Returns-map (Adds q (map (f q rs) jobs) (add_job q (f q rs j) cs)) _ _
        (λ ds h.
          more-Adds q (f q rs j ∷ []) (map (f q rs) jobs) cs _ ds (add_job-Adds q (f q rs j) cs) h)
        (add_jobs-Adds q rs jobs (add_job q (f q rs j) cs)))

  add_found-Adds :
      (q : String) (jobs : List A) (x : Option ResultSet × Missing) (cs : Collections)
      → Returns
          (λ t. Adds q (jobs_found f l q jobs x.0) cs t.0 × (t.1 ≡ x.1))
          (add_found make l q jobs x cs)
  unfolding add_found jobs_found
  add_found-Adds q jobs (none, m) cs = (none-Adds q cs, refl)
  add_found-Adds q jobs (some rs, m) cs =
      Returns-then (Adds q (map (f q rs) jobs) cs) _ _ _ (add_jobs-Adds q rs jobs cs)
        (λ ds h. (h, refl))

  abbrev pub Revised :
      String → List (String × List A) → Collections × Missing → Collections × Missing → Type 0
  Revised q revisions s t =
      Adds q (jobs_of_revisions f l q revisions) s.0 t.0
      × AddsMissing q (λ r. missing_among l q r revisions) s.1 t.1

  add_revisions-Revised :
      (q : String) (revisions : List (String × List A)) (s : Collections × Missing)
      → Returns (Revised q revisions s) (add_revisions make l q revisions s)
  unfolding add_revisions get_resultset jobs_of_revisions missing_among resultset_of
  add_revisions-Revised q [] s = (none-Adds q s.0, λ project r. ground arith)
  add_revisions-Revised q ((revision, jobs) ∷ revisions) (cs, m) =
      let x = in_project q revision (lookup q l) m in
      let h = in_project-AddsMissing q revision (lookup q l) m in
      Returns-then (λ t. Adds q (jobs_found f l q jobs x.0) cs t.0 × (t.1 ≡ x.1)) _ _ _
        (add_found-Adds q jobs x cs)
        (λ t k.
          Returns-map (Revised q revisions t) _ _
            (λ u g. (
              more-Adds q (jobs_found f l q jobs (find_in revision (lookup q l)))
                  (jobs_of_revisions f l q revisions) cs t.0 u.0
                  (subst (λ o. Adds q (jobs_found f l q jobs o) cs t.0) h.0 k.0) g.0,
              both-AddsMissing q (λ r. str_eq revision r && unknown_in revision (lookup q l))
                  (λ r. missing_among l q r revisions) m t.1 u.1
                  (subst
                    (AddsMissing q (λ r. str_eq revision r && unknown_in revision (lookup q l)) m)
                    (sym k.1) h.1)
                  g.1,
            ))
            (add_revisions-Revised q revisions t))

  -- what the loop over the projects adds
  abbrev pub Delivers : Source A → Collections × Missing → Collections × Missing → Type 0
  Delivers jobs s t =
      (project r : String)
      → (jobs_in project t.0 ≡ jobs_in project s.0 ++ jobs_of f l project jobs)
        × (contains r (missing_in project t.1)
            ≡ (contains r (missing_in project s.1) || is_missing l project r jobs))

  Delivers-cons :
      (q : String) (revisions : List (String × List A)) (rest : Source A)
      (s t u : Collections × Missing)
      → Revised q revisions s t
      → Delivers rest t u
      → Delivers ((q, revisions) ∷ rest) s u
  unfolding jobs_of is_missing
  Delivers-cons q revisions rest s t u h k project r = (
    (k project r).0
        ∙ ap (λ js. js ++ jobs_of f l project rest) (h.0 project)
        ∙ append_assoc (jobs_in project s.0)
            (if str_eq q project then jobs_of_revisions f l q revisions else [])
            (jobs_of f l project rest),
    ground (arith, (k project r).1, h.1 project r),
  )

  pub add_projects-Delivers :
      (jobs : Source A) (s : Collections × Missing)
      → Returns (Delivers jobs s) (add_projects make l jobs s)
  unfolding add_projects jobs_of is_missing
  add_projects-Delivers [] s = λ project r. (sym (append-nil _), ground arith)
  add_projects-Delivers ((q, revisions) ∷ rest) s =
      Returns-then (Revised q revisions s) _ _ _ (add_revisions-Revised q revisions s) (λ t h.
        Returns-map (Delivers rest t) _ _ (λ u k. Delivers-cons q revisions rest s t u h k)
          (add_projects-Delivers rest t))

-- what the transformation is to deliver, by what the look-up of the revisions answers
abbrev pub PendingDelivers :
    Printing
    → Buildbot
    → Source PendingJob
    → Result RevisionsLookup
    → Result (Collections × Missing)
    → Type 0
PendingDelivers p b jobs (err e) r = r ≡ err e
PendingDelivers p b jobs (ok found) r =
    Returns
      (λ t.
        (project r : String)
        → (jobs_in project t.0
            ≡ jobs_of
                (λ q rs j.
                  new_job p b q rs j.id j.submitted_at j.buildername "pending" none
                    "buildapi_pending")
                found project jobs)
          × (contains r (missing_in project t.1) ≡ is_missing found project r jobs))
      r

-- The transformation of pending jobs raises what the look-up of their revisions raises, and nothing
-- else. Each project is delivered its jobs whose revision has a result set in the answer of that
-- look-up, in their order, and the revisions that are fetched again are those, but for "Unknown", that
-- the answer for their project does not have.
pub transform_pending-Delivers :
    (p : Printing) (b : Buildbot) (web : Web) (projects : List String) (jobs : Source PendingJob)
    → PendingDelivers p b jobs
        (lookup_revisions web (revision_dict projects jobs) [])
        (transform_pending p b web projects jobs)
unfolding transform_pending pending_job lookup
transform_pending-Delivers p b web projects jobs =
    go (lookup_revisions web (revision_dict projects jobs) [])
  where
    go :
        (found : Result RevisionsLookup)
        → PendingDelivers p b jobs found
            (found >>= λ l. add_projects (pending_job p b) l jobs ([], []))
    go (err e) = refl
    go (ok l) = add_projects-Delivers (pending_job p b) _ (λ q rs j. refl) l jobs ([], [])
