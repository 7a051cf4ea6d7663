-- ===== src/Eta/Medians.antt =====
-- The rows of `calculate_eta`, treeherder/model/derived/jobs.py.
use Prim.{Unit, tt}
use Prim.Native.Char.{code}
use Prim.Native.String.{[] as empty_text, ◌∷◌ as char_cons}
use treeherder_service.Prelude.{
  Bool, true, false, insert_sorted, ◌==◌, ℕ, ◌≤◌, ◌<◌, String, ◌≡◌, refl, List, [], ◌∷◌, arith, leb,
  length, sorted, length-sorted, All, if◌then◌else◌, Bool-cases, inl, inr,
}
use treeherder_service.Json.{Result, ok}
use treeherder_service.Performance.Medians.{Within, get_median_from_sorted_list_bounds}
use treeherder_service.Query.{split_commas, extend_first}
use treeherder_service.Eta.{Times, EtaGroup, EtaRow, sample, samples_of, eta_row, eta_rows}

module _ (lo hi : ℕ) where
  Within-insert_sorted :
      (x : ℕ) (xs : List ℕ)
      → (lo ≤ x) × (x ≤ hi)
      → Within lo hi xs
      → Within lo hi (insert_sorted leb x xs)
  unfolding insert_sorted
  Within-insert_sorted x [] h w = (h, tt)
  Within-insert_sorted x (y ∷ ys) h w = elim (Bool-cases (leb x y)) [
    | inl e ↦ rw e (h, w)
    | inr e ↦ rw e (w.0, Within-insert_sorted x ys h w.1)
  ]

  Within-sorted : (xs : List ℕ) → Within lo hi xs → Within lo hi (sorted leb xs)
  unfolding sorted
  Within-sorted [] w = tt
  Within-sorted (x ∷ xs) w = Within-insert_sorted x (sorted leb xs) w.0 (Within-sorted xs w.1)

length-extend_first : (p : String) (ws : List String) → 0 < length (extend_first p ws)
length-extend_first p [] = omega arith
length-extend_first p (w ∷ ws) = omega arith

choice :
    (b : Bool) (xs ys : List String)
    → 0 < length xs
    → 0 < length ys
    → 0 < length (if b then xs else ys)
choice true xs ys h k = h
choice false xs ys h k = k

length-split_commas : (s : String) → 0 < length (split_commas s)
unfolding split_commas
length-split_commas empty_text = omega arith
length-split_commas (char_cons c s) =
    choice (code c == b',') ("" ∷ split_commas s)
      (extend_first (char_cons c empty_text) (split_commas s)) (omega arith)
      (length-extend_first (char_cons c empty_text) (split_commas s))

module _ (int : String → Result ℕ) (now lo hi : ℕ) where
  -- every sample is a number between the bounds
  abbrev pub Reads : Times → Type 0
  Reads t =
      All (λ s. (n : ℕ) × (sample int now s ≡ ok n) × (lo ≤ n) × (n ≤ hi)) (split_commas t.samples)

  samples_of-Within :
      (ss : List String)
      → All (λ s. (n : ℕ) × (sample int now s ≡ ok n) × (lo ≤ n) × (n ≤ hi)) ss
      → (ns : List ℕ) × (samples_of int now ss ≡ ok ns) × Within lo hi ns × (length ns ≡ length ss)
  unfolding samples_of
  samples_of-Within [] h = ([], refl, tt, refl)
  samples_of-Within (s ∷ ss) ((n, e, l, u), hs) =
      let (ns, f, w, k) = samples_of-Within ss hs in
      (n ∷ ns, rw (e, f) refl, ((l, u), w), omega (arith, k))

  -- A row of the signature in the state, with all the samples counted and a median between them.
  abbrev pub Summarises : String → String → Times → EtaRow → Type 0
  Summarises signature state t r =
      (r.signature ≡ signature)
      × (r.state ≡ state)
      × (lo ≤ r.median_sec)
      × (r.median_sec ≤ hi)
      × (r.sample_count ≡ length (split_commas t.samples))

  eta_row-Summarises :
      (signature state : String) (t : Times)
      → Reads t
      → (r : EtaRow) × (eta_row int now signature state t ≡ ok r) × Summarises signature state t r
  unfolding eta_row
  eta_row-Summarises signature state t h =
      let (ns, e, w, k) = samples_of-Within (split_commas t.samples) h in
      let sorted_ns = sorted leb ns in
      let (v, f, l, u) =
        (get_median_from_sorted_list_bounds lo hi sorted_ns (Within-sorted lo hi ns w)).1
          (omega (arith, length-sorted leb ns, k, length-split_commas t.samples)) in
      (
        record {
          signature = signature;
          state = state;
          avg_sec = t.avg_sec;
          median_sec = v;
          min_sec = t.min_sec;
          max_sec = t.max_sec;
          std = t.std;
          sample_count = length ns;
          submit_timestamp = now;
        },
        rw (e, f) refl,
        (refl, refl, l, u, k),
      )

  -- The rows of the groups: one of the pending times and one of the running times for each.
  abbrev pub SummariseAll : List EtaGroup → List EtaRow → Type 0
  SummariseAll [] [] = Unit
  SummariseAll (g ∷ gs) (p ∷ r ∷ rs) =
      Summarises g.signature "pending" g.pending p
      × Summarises g.signature "running" g.running r
      × SummariseAll gs rs
  SummariseAll _ _ = ⊥

  -- Where every sample is read as a number between two bounds, the rows are made without an
  -- exception: for each group one of the pending and one of the running times, which counts all the
  -- samples, with a median between the bounds.
  pub eta_rows_lem :
      (gs : List EtaGroup)
      → All (λ (g : EtaGroup). Reads g.pending × Reads g.running) gs
      → (rs : List EtaRow) × (eta_rows int now gs ≡ ok rs) × SummariseAll gs rs
  unfolding eta_rows
  eta_rows_lem [] h = ([], refl, tt)
  eta_rows_lem (g ∷ gs) ((hp, hr), h) =
      let (p, e, sp) = eta_row-Summarises g.signature "pending" g.pending hp in
      let (r, f, sr) = eta_row-Summarises g.signature "running" g.running hr in
      let (rs, d, ss) = eta_rows_lem gs h in (p ∷ r ∷ rs, rw (e, f, d) refl, (sp, sr, ss))
