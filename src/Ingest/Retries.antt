-- ===== src/Ingest/Retries.antt =====
-- The job ids of retries in `load_job_data` of treeherder/model/derived/jobs.py.
use treeherder_service.Prelude.{
  subst, String, ◌≡◌, refl, ap, ◌∙◌, sym, Bool, true, false, ◌||◌, Option, none, some, List, [],
  ◌∷◌, arith, str_eq, eq_iff, eq_refl, contains, lookup, insert, lookup-insert, string_eq,
  Bool-cases, Option-cases, inl, inr,
}
use treeherder_service.Guid.{get_guid_root}
use treeherder_service.Jobs.{Job}
use treeherder_service.Ingest.Ids.{JobIds, add_retry, add_retries, retry_with}

abbrev pub is_some {ℓ} : {A : Type ℓ} → Option A → Bool
is_some none = false
is_some (some a) = true

abbrev pub is_known : String → JobIds → Bool
is_known guid ids = is_some (lookup guid ids)

insert-keeps :
    (k guid : String) (job other : Job) (ids : JobIds)
    → lookup k ids ≡ none
    → lookup guid ids ≡ some job
    → lookup guid (insert k other ids) ≡ some job
insert-keeps k guid job other ids h g = elim (Bool-cases (str_eq k guid)) [
  | inl e ↦ cc (ap (λ x. lookup x ids) ((eq_iff k guid).0 e))
  | inr e ↦ lookup-insert k guid other ids ∙ rw e g
]

module _ (guid other : String) (ids : JobIds) (job : Job) (h : lookup other ids ≡ some job) where
  keeps_with :
      (own root : Option Job)
      → lookup guid ids ≡ own
      → lookup (get_guid_root guid) ids ≡ root
      → lookup other (retry_with guid own root ids) ≡ some job
  keeps_with none none n m = h
  keeps_with none (some j) n m = insert-keeps guid other job j ids n h
  keeps_with (some j) none n m = insert-keeps (get_guid_root guid) other job j ids m h
  keeps_with (some j) (some i) n m = h

  add_retry-keeps : lookup other (add_retry guid ids) ≡ some job
  unfolding add_retry
  add_retry-keeps = keeps_with (lookup guid ids) (lookup (get_guid_root guid) ids) refl refl

is_known-insert : (k : String) (job : Job) (ids : JobIds) → is_known k (insert k job ids) ≡ true
is_known-insert k job ids =
    let found : lookup k (insert k job ids) ≡ some job =
      lookup-insert k k job ids ∙ rw (eq_refl k) refl in
    ap is_some found

known_with :
    (guid : String) (ids : JobIds) (own root : Option Job)
    → lookup guid ids ≡ own
    → lookup (get_guid_root guid) ids ≡ root
    → (is_known guid (retry_with guid own root ids) ≡ (is_some own || is_some root))
      × (is_known (get_guid_root guid) (retry_with guid own root ids)
          ≡ (is_some own || is_some root))
known_with guid ids none none n m = (ap is_some n, ap is_some m)
known_with guid ids none (some j) n m =
    (is_known-insert guid j ids, ap is_some (insert-keeps guid (get_guid_root guid) j j ids n m))
known_with guid ids (some j) none n m = (
  ap is_some (insert-keeps (get_guid_root guid) guid j j ids m n),
  is_known-insert (get_guid_root guid) j ids,
)
known_with guid ids (some j) (some i) n m = (ap is_some n, ap is_some m)

-- After the step for one retry its guid and its root are known both or neither, and they are
-- known if one of them was before.
add_retry_lem :
    (guid : String) (ids : JobIds)
    → (is_known guid (add_retry guid ids)
        ≡ (is_known guid ids || is_known (get_guid_root guid) ids))
      × (is_known (get_guid_root guid) (add_retry guid ids)
          ≡ (is_known guid ids || is_known (get_guid_root guid) ids))
unfolding add_retry
add_retry_lem guid ids =
    known_with guid ids (lookup guid ids) (lookup (get_guid_root guid) ids) refl refl

add_retries-keeps :
    (guids : List String) (other : String) (ids : JobIds) (job : Job)
    → lookup other ids ≡ some job
    → lookup other (add_retries guids ids) ≡ some job
unfolding add_retries
add_retries-keeps [] other ids job h = h
add_retries-keeps (g ∷ guids) other ids job h =
    add_retries-keeps guids other (add_retry g ids) job (add_retry-keeps g other ids job h)

known_later :
    (guids : List String) (other : String) (ids : JobIds)
    → is_known other ids ≡ true
    → is_known other (add_retries guids ids) ≡ true
known_later guids other ids h = elim (Option-cases (lookup other ids)) [
  | inl n ↦ cc (rw n at h)
  | inr (job, n) ↦ ap is_some (add_retries-keeps guids other ids job n)
]

still_known :
    (g guid : String) (ids : JobIds)
    → (is_known guid ids || is_known (get_guid_root guid) ids) ≡ true
    → (is_known guid (add_retry g ids) || is_known (get_guid_root guid) (add_retry g ids)) ≡ true
unfolding add_retries
still_known g guid ids h =
    let own : is_known guid ids ≡ true → is_known guid (add_retry g ids) ≡ true =
      known_later (g ∷ []) guid ids in
    let root : is_known (get_guid_root guid) ids ≡ true
        → is_known (get_guid_root guid) (add_retry g ids) ≡ true =
      known_later (g ∷ []) (get_guid_root guid) ids in
    elim (Bool-cases (is_known guid ids)) [
      | inl e ↦ ground (arith, own e)
      | inr e ↦ ground (arith, root (rw e at h))
    ]

-- A retry of the batch whose guid or whose root is known is found afterwards under both, and no
-- job that was known is found under its guid no more.
pub add_retries_lem :
    (guids : List String) (guid : String) (ids : JobIds)
    → contains guid guids ≡ true
    → (is_known guid ids || is_known (get_guid_root guid) ids) ≡ true
    → (is_known guid (add_retries guids ids) ≡ true)
      × (is_known (get_guid_root guid) (add_retries guids ids) ≡ true)
      × ((other : String) (job : Job)
          → lookup other ids ≡ some job
          → lookup other (add_retries guids ids) ≡ some job)
unfolding add_retries
add_retries_lem [] guid ids c h = cc
add_retries_lem (g ∷ guids) guid ids c h = elim (Bool-cases (str_eq g guid)) [
  | inl e ↦
      let same = (eq_iff g guid).0 e in
      let (own, root) = add_retry_lem guid ids in
      (
        subst (λ x. is_known guid (add_retries guids (add_retry x ids)) ≡ true) (sym same)
            (known_later guids guid (add_retry guid ids) (own ∙ h)),
        subst (λ x. is_known (get_guid_root guid) (add_retries guids (add_retry x ids)) ≡ true)
            (sym same) (known_later guids (get_guid_root guid) (add_retry guid ids) (root ∙ h)),
        λ other job g'. add_retries-keeps (g ∷ guids) other ids job g',
      )
  | inr e ↦
      let (own, root, kept) =
        add_retries_lem guids guid (add_retry g ids) (rw e at c) (still_known g guid ids h) in
      (own, root, λ other job f. add_retries-keeps (g ∷ guids) other ids job f)
]
