-- ===== src/Buildapi/Requests.antt =====
-- The identifiers of the requests behind a complete job, find_job_guid of treeherder/etl/buildapi.py.
use treeherder_service.Prelude.{
  ℕ, String, ◌≡◌, refl, sym, ◌∙◌, true, Option, none, some, List, [], ◌∷◌, ◌++◌, if◌then◌else◌, ltb,
  length, lookup, string_eq, nat_eq, arith, inl, inr, contains, ◌⊎◌, append_assoc, eq_refl,
}
use treeherder_service.Json.{ok, err, key_error, ◌>>=◌, Holds, Holds-bind, Holds-then}
use treeherder_service.Guid.{Printing, generate_job_guid, get_guid_root}
use treeherder_service.Guid.Roots.{get_guid_root-generate_job_guid}
use treeherder_service.LogParser.Steps.{result_dict}
use treeherder_service.Buildapi.{
  by_id, Build, GuidData, get_property, join_numbers, times_by_id, or_key_error, read_times,
  coalesced_guids, read_endtime, find_job_guid,
}

-- the guid of a request while it is pending or running
abbrev pub request_guid : Printing → ℕ → ℕ → String
request_guid p r t = generate_job_guid p (p.str r) (p.str t) 0

-- every request with its time is covered by a job: by the root of its guid, or as one of those that
-- were coalesced into it
abbrev pub Covers : Printing → GuidData → ℕ → ℕ → Type 0
Covers p g r t =
    (get_guid_root g.job_guid ≡ request_guid p r t)
    ⊎ (contains (request_guid p r t) g.coalesced ≡ true)

abbrev pub CoversAll : Printing → GuidData → List ℕ → List (String × ℕ) → Type 0
CoversAll p g [] times = Unit
CoversAll p g (r ∷ rs) times =
    ((t : ℕ) × (lookup (p.str r) times ≡ some t) × Covers p g r t) × CoversAll p g rs times

-- the times of the requests, one by one
abbrev TimesOf : Printing → List (String × ℕ) → List ℕ → List ℕ → Type 0
TimesOf p d [] [] = Unit
TimesOf p d [] (t ∷ ts) = ⊥
TimesOf p d (r ∷ rs) [] = ⊥
TimesOf p d (r ∷ rs) (t ∷ ts) = (lookup (p.str r) d ≡ some t) × TimesOf p d rs ts

time-TimesOf :
    (p : Printing) (d : List (String × ℕ)) (r : ℕ) (rs : List ℕ) (o : Option ℕ)
    → lookup (p.str r) d ≡ o
    → Holds (TimesOf p d rs) (times_by_id p d rs)
    → Holds
        (TimesOf p d (r ∷ rs))
        (or_key_error (p.str r) o >>= λ t. times_by_id p d rs >>= λ ts. ok (t ∷ ts))
time-TimesOf p d r rs none e h = tt
time-TimesOf p d r rs (some t) e h =
    Holds-then (TimesOf p d rs) _ (times_by_id p d rs) _ h (λ ts w. (e, w))

times_by_id-TimesOf :
    (p : Printing) (d : List (String × ℕ)) (rs : List ℕ)
    → Holds (TimesOf p d rs) (times_by_id p d rs)
unfolding times_by_id
times_by_id-TimesOf p d [] = tt
times_by_id-TimesOf p d (r ∷ rs) =
    time-TimesOf p d r rs (lookup (p.str r) d) refl (times_by_id-TimesOf p d rs)

contains-middle :
    (g : String) (before after : List String) → contains g (before ++ g ∷ after) ≡ true
contains-middle g [] after = ground (arith, eq_refl g)
contains-middle g (x ∷ before) after = ground (arith, contains-middle g before after)

coalesced-CoversAll :
    (p : Printing) (d : List (String × ℕ)) (guid : String) (all before : List String)
    (rs ts : List ℕ)
    → TimesOf p d rs ts
    → all ≡ before ++ coalesced_guids p rs ts
    → CoversAll p (record { job_guid = guid; coalesced = all }) rs d
unfolding coalesced_guids
coalesced-CoversAll p d guid all before [] [] h e = tt
coalesced-CoversAll p d guid all before [] (t ∷ ts) h e = elim h [ ]
coalesced-CoversAll p d guid all before (r ∷ rs) [] h e = elim h [ ]
coalesced-CoversAll p d guid all before (r ∷ rs) (t ∷ ts) h e =
    let g = request_guid p r t in
    (
      (t, h.0, inr (rw e (contains-middle g before (coalesced_guids p rs ts)))),
      coalesced-CoversAll p d guid all (before ++ g ∷ []) rs ts h.1
          (e ∙ sym (append_assoc before (g ∷ []) (coalesced_guids p rs ts))),
    )

guid_data-CoversAll :
    (p : Printing) (d : List (String × ℕ)) (endtime : ℕ) (rs ts : List ℕ)
    → TimesOf p d rs ts
    → CoversAll p
        (record {
          job_guid = generate_job_guid p (join_numbers p rs) (join_numbers p ts) endtime;
          coalesced = if ltb 1 (length rs) then coalesced_guids p rs ts else [];
        })
        rs
        d
unfolding join_numbers
guid_data-CoversAll p d endtime [] [] h = tt
guid_data-CoversAll p d endtime [] (t ∷ ts) h = elim h [ ]
guid_data-CoversAll p d endtime (r ∷ rs) [] h = elim h [ ]
guid_data-CoversAll p d endtime (r ∷ []) (t ∷ []) h =
    ((t, h.0, inl (get_guid_root-generate_job_guid p (p.str r) (p.str t) endtime)), tt)
guid_data-CoversAll p d endtime (r ∷ []) (t ∷ u ∷ ts) h = elim h.1 [ ]
guid_data-CoversAll p d endtime (r ∷ q ∷ rs) (t ∷ ts) h =
    let many : ltb 1 (length (r ∷ q ∷ rs)) ≡ true = ground arith in
    coalesced-CoversAll p d _ _ [] (r ∷ q ∷ rs) (t ∷ ts) h (rw many refl)

-- Where the requests have their times by id, the guid data of a complete build, if there are any, cover
-- each request: the guid that it had while it was pending is the root of the job's guid, or is listed
-- as coalesced.
pub find_job_guid-CoversAll :
    (p : Printing) (b : Build) (ids : List ℕ) (times : List (String × ℕ))
    → get_property b.property_request_ids "request_ids" b.request_ids ≡ ok ids
    → get_property b.property_request_times "requesttime" b.requesttime ≡ ok (by_id times)
    → Holds (λ g. CoversAll p g ids times) (find_job_guid p b)
unfolding find_job_guid read_times
find_job_guid-CoversAll p b ids times h k =
    rw (h, k)
      (Holds-bind (λ g. CoversAll p g ids times)
        (or_key_error (p.str b.result) (lookup b.result result_dict)) _
        (λ result.
          Holds-bind (λ g. CoversAll p g ids times) (read_endtime result b.endtime) _
            (λ endtime.
              Holds-then
                (λ (x : List ℕ × String). TimesOf p times ids x.0 × (x.1 ≡ join_numbers p x.0))
                (λ g. CoversAll p g ids times) _ _
                (Holds-then (TimesOf p times ids) _ _ _ (times_by_id-TimesOf p times ids)
                  (λ ts w. (w, refl)))
                (λ x w. rw w.1 (guid_data-CoversAll p times endtime ids x.0 w.0)))))

-- The default is read whatever the properties have: a build that has its ids in the properties only
-- raises a KeyError.
pub find_job_guid-properties :
    (p : Printing) (b : Build)
    → b.request_ids ≡ none
    → find_job_guid p b ≡ err (key_error "request_ids")
unfolding find_job_guid get_property
find_job_guid-properties p b h = rw h refl
