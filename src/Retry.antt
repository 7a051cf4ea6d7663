-- ===== src/Retry.antt =====
-- `retry_execute` of treeherder/model/utils.py, through which every statement goes.
use treeherder_service.Prelude.{
  ℕ, zero, suc, ◌+◌, ◌-◌, ◌≤◌, ◌<◌, ◌≡◌, refl, arith, ◌⊎◌, inl, inr, ◌≢◌, ap, sym, ◌∙◌,
}
use native.Mathlib.Nat.{add-zero, zero-add}

-- what a call of `dhub.execute` does: it returns, or raises MySQL's OperationalError or another
-- exception
pub data Outcome {ℓ} (A : Type ℓ) : Type ℓ where
  returned : A → Outcome A
  operational_error : Outcome A
  other_error : Outcome A

module _ {ℓ} {A : Type ℓ} (execute : ℕ → Outcome A) where
  -- the call number `n`, with `left` retries left
  attempt : ℕ → ℕ → Outcome A
  attempt zero n = execute n
  attempt (suc left) n = elim (execute n) [
    | returned a ↦ returned a
    | operational_error ↦ attempt left (suc n)
    | other_error ↦ other_error
  ]

  -- `retries` counts up to 20, so there are 20 - retries left
  pub retry_execute : ℕ → Outcome A
  unfolding attempt
  retry_execute retries = attempt (20 - retries) 0

  settled :
      (o rest : Outcome A)
      → o ≢ operational_error
      → (elim o [ returned a ↦ returned a | operational_error ↦ rest | other_error ↦ other_error ])
        ≡ o
  settled (returned a) rest stop = refl
  settled operational_error rest stop = absurd (stop refl)
  settled other_error rest stop = refl

  attempt_lem :
      (left n k : ℕ)
      → k ≤ left
      → ((i : ℕ) → i < k → execute (n + i) ≡ operational_error)
      → (execute (n + k) ≢ operational_error) ⊎ (k ≡ left)
      → attempt left n ≡ execute (n + k)
  unfolding attempt
  attempt_lem zero n k h early last = ap execute (omega arith)
  attempt_lem (suc left) n zero h early (inl stop) =
      settled (execute n) (attempt left (suc n)) (rw add-zero at stop) ∙ ap execute (omega arith)
  attempt_lem (suc left) n zero h early (inr e) = absurd (omega arith)
  attempt_lem (suc left) n (suc k) h early last =
      let first : execute n ≡ operational_error =
        ap execute (omega arith) ∙ early 0 (omega arith) in
      let shift : (i : ℕ) → execute (suc n + i) ≡ execute (n + suc i) =
        λ i. ap execute (omega arith) in
      rw (first, attempt)
        (attempt_lem left (suc n) k (omega arith) (λ i lt. shift i ∙ early (suc i) (omega arith))
            (later last (shift k))
          ∙ shift k)
    where
      later :
          (execute (n + suc k) ≢ operational_error) ⊎ (suc k ≡ suc left)
          → execute (suc n + k) ≡ execute (n + suc k)
          → (execute (suc n + k) ≢ operational_error) ⊎ (k ≡ left)
      later (inl stop) e = inl (λ f. stop (sym e ∙ f))
      later (inr e) f = inr (omega arith)

  -- The first of the calls that does not fail with an OperationalError gives the result, be it a
  -- value or another exception; after twenty retries the call's own error is raised.
  pub retry_execute_lem :
      (k : ℕ)
      → k ≤ 20
      → ((i : ℕ) → i < k → execute i ≡ operational_error)
      → (execute k ≢ operational_error) ⊎ (k ≡ 20)
      → retry_execute 0 ≡ execute k
  unfolding retry_execute
  retry_execute_lem k h early last =
      attempt_lem 20 0 k h (λ i lt. ap execute (omega arith) ∙ early i lt) (rw zero-add last)
      ∙ ap execute (omega arith)
