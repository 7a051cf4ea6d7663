-- ===== src/Eta.antt =====
-- `calculate_eta` of treeherder/model/derived/jobs.py: the rows of waiting times that it stores for
-- the groups that the query jobs.selects.get_eta_groups answers with.
pub mod Medians
use treeherder_service.Prelude.{
  ℕ, String, List, [], ◌∷◌, str_eq, leb, if◌then◌else◌, length, sorted,
}
use treeherder_service.Json.{Result, ok, err, ◌>>=◌}
use treeherder_service.Performance.{get_median_from_sorted_list}
use treeherder_service.Query.{split_commas}

-- the columns of a group for one state, the samples joined by commas
pub record Times : Type 0 where
  pub avg_sec : ℕ
  pub min_sec : ℕ
  pub max_sec : ℕ
  pub std : ℕ
  pub samples : String

pub record EtaGroup : Type 0 where
  pub signature : String
  pub pending : Times
  pub running : Times

-- a row of placeholders
pub record EtaRow : Type 0 where
  pub signature : String
  pub state : String
  pub avg_sec : ℕ
  pub median_sec : ℕ
  pub min_sec : ℕ
  pub max_sec : ℕ
  pub std : ℕ
  pub sample_count : ℕ
  pub submit_timestamp : ℕ

-- `int` reads a text as a number, or raises; `now` is the clock
module _ (int : String → Result ℕ) (now : ℕ) where
  -- `int(x or 0)`
  unfoldable pub sample : String → Result ℕ
  sample x = if str_eq x "" then ok 0 else int x

  unfoldable pub samples_of : List String → Result (List ℕ)
  unfolding sample
  samples_of [] = ok []
  samples_of (x ∷ xs) = sample x >>= λ n. samples_of xs >>= λ ns. ok (n ∷ ns)

  unfoldable pub eta_row : String → String → Times → Result EtaRow
  unfolding samples_of
  eta_row signature state t = samples_of (split_commas t.samples) >>= λ samples.
      get_median_from_sorted_list (sorted leb samples) >>= λ median. ok (record {
        signature = signature;
        state = state;
        avg_sec = t.avg_sec;
        median_sec = median;
        min_sec = t.min_sec;
        max_sec = t.max_sec;
        std = t.std;
        sample_count = length samples;
        submit_timestamp = now;
      })

  unfoldable pub eta_rows : List EtaGroup → Result (List EtaRow)
  unfolding eta_row
  eta_rows [] = ok []
  eta_rows (g ∷ gs) = eta_row g.signature "pending" g.pending >>= λ p.
      eta_row g.signature "running" g.running >>= λ r. eta_rows gs >>= λ rest. ok (p ∷ r ∷ rest)
