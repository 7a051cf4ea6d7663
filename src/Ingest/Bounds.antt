-- ===== src/Ingest/Bounds.antt =====
-- The placeholders of one job, in `_load_ref_and_job_data_structs` and `_set_data_ids` of
-- treeherder/model/derived/jobs.py.
use Prim.{tt}
use treeherder_service.Prelude.{
  Option-cases, ◌+◌, ◌≤◌, String, ◌≡◌, refl, not, Option, some, List, [], ◌∷◌, ◌++◌, map, arith,
  str_eq, text_length, take_text, text_length-take, length, length-append, tally, All, Bool-cases,
  inl, inr,
}
use treeherder_service.Json.{ok, Holds, Holds-bind, Holds-then, Holds-map, Holds-ok}
use treeherder_service.Guid.{get_guid_root}
use treeherder_service.RefData.{Library}
use treeherder_service.Ingest.{JobBlob, LogReference, Python, JobRow, LogRow}
use treeherder_service.Ingest.Structs.{Structs, load_structs, machine_stamp, log_row, or_unknown}
use treeherder_service.Ingest.Ids.{
  Ids, IdLookups, ResultSetId, Etas, set_data_ids, set_all_ids, item,
}

-- The texts of the job that are cut to the columns of the `job` table; the result is as it came.
abbrev pub Cut : JobBlob → JobRow → Type 0
Cut job p =
    ((guid : String) × (job.job_guid ≡ some guid) × (p.job_guid ≡ take_text 50 guid))
    × (p.who ≡ take_text 50 (or_unknown job.who))
    × (p.reason ≡ take_text 125 (or_unknown job.reason))
    × (p.state ≡ take_text 25 (or_unknown job.state))
    × (p.result ≡ or_unknown job.result)

-- what fits the columns of the `job` table
abbrev pub Fits : JobRow → Type 0
Fits p =
    (text_length p.job_guid ≤ 50)
    × (text_length p.who ≤ 50)
    × (text_length p.reason ≤ 125)
    × (text_length p.state ≤ 25)

abbrev pub LogFits : LogRow → Type 0
LogFits r = (text_length r.name ≤ 50) × (text_length r.url ≤ 255)

-- a row for each log reference in their order, with its texts cut
abbrev pub LogsCut : String → List LogReference → List LogRow → Type 0
LogsCut guid [] [] = Unit
LogsCut guid [] (r ∷ rs) = ⊥
LogsCut guid (log ∷ logs) [] = ⊥
LogsCut guid (log ∷ logs) (r ∷ rs) =
    (r.job_guid ≡ guid)
    × (r.name ≡ take_text 50 (or_unknown log.name))
    × (r.url ≡ take_text 255 (or_unknown log.url))
    × LogsCut guid logs rs

log_rows-LogsCut :
    (guid : String) (logs : List LogReference) → LogsCut guid logs (map (log_row guid) logs)
unfolding log_row
log_rows-LogsCut guid [] = tt
log_rows-LogsCut guid (log ∷ logs) = (refl, refl, refl, log_rows-LogsCut guid logs)

log_rows-fit : (guid : String) (logs : List LogReference) → All LogFits (map (log_row guid) logs)
unfolding log_row
log_rows-fit guid [] = tt
log_rows-fit guid (log ∷ logs) =
    ((text_length-take 50 _, text_length-take 255 _), log_rows-fit guid logs)

-- What the structures of a loaded job hold beside those before.
abbrev pub Loads : Structs → JobBlob → String × Structs → Type 0
Loads st job (guid, st2) =
    (p : JobRow) × (st2.job_placeholders ≡ st.job_placeholders ++ p ∷ [])
    × (p.job_guid ≡ guid)
    × (p.root_guid ≡ get_guid_root guid)
    × Cut job p
    × Fits p
    × (logs : List LogRow) × (st2.log_placeholders ≡ st.log_placeholders ++ logs)
    × LogsCut guid job.log_references logs
    × All LogFits logs

Loads-structs :
    (py : Python) (l : Library) (project : String) (job : JobBlob) (revision_hash : String)
    (st : Structs)
    → Holds (Loads st job) (load_structs py l project job revision_hash st)
unfolding load_structs
Loads-structs py l project job revision_hash st =
    Holds-bind (Loads st job) (machine_stamp py l.now job.end_timestamp) _ (λ time.
      elim (Option-cases job.job_guid) [
        | inl e ↦ rw e tt
        | inr (guid, e) ↦ rw e (
          _,
          refl,
          refl,
          refl,
          ((guid, refl, refl), refl, refl, refl, refl),
          (
            text_length-take 50 guid,
            text_length-take 50 (or_unknown job.who),
            text_length-take 125 (or_unknown job.reason),
            text_length-take 25 (or_unknown job.state),
          ),
          map (log_row (take_text 50 guid)) job.log_references,
          refl,
          log_rows-LogsCut (take_text 50 guid) job.log_references,
          log_rows-fit (take_text 50 guid) job.log_references,
        )
      ])

-- A job whose structures are loaded adds one row of placeholders behind the others, of the guid that is
-- answered and its root, whose guid, who, reason and state are those of the job, cut to 50, 50, 125 and
-- 25 characters, and whose result is the job's; and a row for each log reference, in their order, with
-- its name and its address cut to 50 and 255 characters.
pub load_structs_lem :
    (py : Python) (l : Library) (project : String) (job : JobBlob) (revision_hash guid : String)
    (st st2 : Structs)
    → load_structs py l project job revision_hash st ≡ ok (guid, st2)
    → Loads st job (guid, st2)
load_structs_lem py l project job revision_hash guid st st2 h =
    Holds-ok (Loads st job) _ (guid, st2) h (Loads-structs py l project job revision_hash st)

abbrev Grows : Ids → List JobRow → Ids → Type 0
Grows s ps s2 =
    (length s2.inserts ≡ length s.inserts + length ps)
    × (length s2.updates
        ≡ length s.updates + tally (λ (p : JobRow). not (str_eq p.state "pending")) ps)

Grows-one :
    (l : IdLookups) (result_set_ids : String → Option ResultSetId) (etas : Etas) (p : JobRow)
    (s : Ids)
    → Holds (Grows s (p ∷ [])) (set_data_ids l result_set_ids etas p s)
unfolding set_data_ids
Grows-one l result_set_ids etas p s =
    Holds-bind _ (item p.revision_hash (result_set_ids p.revision_hash)) _ (λ rs.
      Holds-bind _ (item p.build_platform_key (l.build_platforms p.build_platform_key)) _ (λ b.
        Holds-bind _ (item p.machine_platform_key (l.machine_platforms p.machine_platform_key)) _
          (λ m. Holds-bind _ (item p.machine (l.machines p.machine)) _ (λ n.
            Holds-bind _ (item p.device_name (l.devices p.device_name)) _ (λ d.
              Holds-bind _ (item p.job_type_key (l.job_types p.job_type_key)) _ (λ t.
                Holds-bind _ (item p.product (l.products p.product)) _ (λ o.
                  elim (Bool-cases (str_eq p.state "pending")) [
                    | inl e ↦ rw e (length-append s.inserts _, omega arith)
                    | inr e ↦ rw e (length-append s.inserts _, length-append s.updates _)
                  ])))))))

Grows-all :
    (l : IdLookups) (result_set_ids : String → Option ResultSetId) (etas : Etas) (ps : List JobRow)
    (s : Ids)
    → Holds (Grows s ps) (set_all_ids l result_set_ids etas ps s)
unfolding set_all_ids
Grows-all l result_set_ids etas [] s = (omega arith, omega arith)
Grows-all l result_set_ids etas (p ∷ ps) s =
    Holds-then (Grows s (p ∷ [])) (Grows s (p ∷ ps)) (set_data_ids l result_set_ids etas p s) _
      (Grows-one l result_set_ids etas p s)
      (λ s1 (i, u).
        Holds-map (Grows s1 ps) (Grows s (p ∷ ps)) (set_all_ids l result_set_ids etas ps s1)
          (λ s2 (j, v). (omega (arith, i, j), omega (arith, u, v)))
          (Grows-all l result_set_ids etas ps s1))

-- Each row of placeholders becomes one row to insert, and one to update unless it is pending.
set_all_ids-length :
    (l : IdLookups) (result_set_ids : String → Option ResultSetId) (etas : Etas) (ps : List JobRow)
    (s s2 : Ids)
    → set_all_ids l result_set_ids etas ps s ≡ ok s2
    → (length s2.inserts ≡ length s.inserts + length ps)
      × (length s2.updates
          ≡ length s.updates + tally (λ (p : JobRow). not (str_eq p.state "pending")) ps)
set_all_ids-length l result_set_ids etas ps s s2 h =
    Holds-ok (Grows s ps) _ s2 h (Grows-all l result_set_ids etas ps s)
