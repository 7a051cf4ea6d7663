-- ===== src/Objectstore/Claims.antt =====
-- How many rows a call of `claim_objects` gives a worker, and which.
use treeherder_service.Prelude.{
  ℕ, zero, suc, map, take, sym, ◌+◌, ◌-◌, ◌≡◌, true, false, ap, Bool, ◌&&◌, List, [], ◌∷◌, ◌++◌,
  arith, ltb, Bool-cases, inl, inr, tally, tally-append, ◌∙◌, keep,
}
use treeherder_service.Objectstore.{
  Row, Store, claimable, claimed_by, claim, mark_loading, get_claimed, claim_objects,
}

-- what a call is to answer: the rows that the worker had claimed and not finished, and the first of
-- those that are ready without an error, as many as the limit allows, marked as the worker's
abbrev pub due : ℕ → ℕ → List Row → List Row
due c limit rs = keep (claimed_by c) rs ++ map (claim c) (take limit (keep claimable rs))

tally-get_claimed :
    (p : Row → Bool) (c limit : ℕ) (rs : List Row)
    → tally p (get_claimed c (mark_loading c limit rs))
      ≡ tally p (keep (claimed_by c) rs) + tally p (map (claim c) (take limit (keep claimable rs)))
unfolding mark_loading get_claimed
tally-get_claimed p c zero [] = omega arith
tally-get_claimed p c (suc limit) [] = omega arith
tally-get_claimed p c zero (r ∷ rs) = ground (arith, tally-get_claimed p c zero rs)
tally-get_claimed p c (suc limit) (r ∷ rs) = elim (Bool-cases (claimable r)) [
  | inl e ↦
      let left : ltb 0 (suc limit) ≡ true = ground arith in
      let less : suc limit - 1 ≡ limit = omega arith in
      let mine : claimed_by c (claim c r) ≡ true = ground (arith, e) in
      let others : claimed_by c r ≡ false = ground (arith, e) in
      rw (left, e, less) (rw (mine, others) (ground (arith, tally-get_claimed p c limit rs)))
  | inr e ↦
      let left : ltb 0 (suc limit) ≡ true = ground arith in
      rw (left, e) (ground (arith, tally-get_claimed p c (suc limit) rs))
]

-- A worker gets the rows that it had claimed before and not finished, and on top of them the first
-- of those that are ready without an error, as many as the limit allows, marked as its own: each of
-- these rows is answered as often as it stands there, in some order, and no other row is.
pub claim_objects_lem :
    (p : Row → Bool) (c limit : ℕ) (s : Store)
    → tally p (claim_objects c limit s).0 ≡ tally p (due c limit s.rows)
unfolding claim_objects
claim_objects_lem p c limit s = tally-get_claimed p c limit s.rows ∙ sym (tally-append p _ _)

-- Rows with smaller ids come first: the later part of the table is given only what the limit
-- leaves over behind the claimable rows of the earlier part.
mark_loading-append :
    (c limit : ℕ) (rs qs : List Row)
    → mark_loading c limit (rs ++ qs)
      ≡ mark_loading c limit rs ++ mark_loading c (limit - tally claimable rs) qs
unfolding mark_loading
mark_loading-append c limit [] qs = ap (λ n. mark_loading c n qs) (omega arith)
mark_loading-append c limit (r ∷ rs) qs = elim (Bool-cases (ltb 0 limit && claimable r)) [
  | inl e ↦
      rw (e, mark_loading-append c (limit - 1) rs qs)
        (ap (λ n. claim c r ∷ (mark_loading c (limit - 1) rs ++ mark_loading c n qs))
          (ground arith))
  | inr e ↦
      rw (e, mark_loading-append c limit rs qs)
        (ap (λ n. r ∷ (mark_loading c limit rs ++ mark_loading c n qs)) (ground arith))
]
