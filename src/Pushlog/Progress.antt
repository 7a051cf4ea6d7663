-- ===== src/Pushlog/Progress.antt =====
-- What a run posts, and how far it moves the last push that it has seen.
use treeherder_service.Prelude.{
  ℕ, ◌≤◌, String, ◌≡◌, refl, ap, ◌∙◌, max, Option, none, some, List, [], ◌∷◌, ◌++◌, map, ◌⊎◌, inl,
  inr, ◌==◌, All, Bool-cases, arith, str_eq, lookup, string_eq, ==_iff,
}
use treeherder_service.Json.{Result, ok, err, Holds, Holds-then, Holds-eq, ◌>>=◌}
use treeherder_service.Pushlog.{
  Changeset, Push, Content, Env, Failure, http_error, error, Service, World, load, or_next,
  on_cached, extract_from, push_ids, greatest, or_key_error, first_node, top_revision, on_loaded,
  on_top, on_extracted, run,
}
use treeherder_service.Pushlog.Transformed.{result_set_of, transform_lem}

-- the first revision of the push with the greatest id
abbrev pub IsNewest : Env → Content → String → Type 0
IsNewest env content top =
    (n : ℕ) × (push : Push) × (change : Changeset) × (changes : List Changeset) × (lookup
        (env.printing.str n) content
      ≡ some push)
    × (push.changesets ≡ change ∷ changes)
    × (top ≡ change.node)
    × All (λ entry. (m : ℕ) × (env.int entry.0 ≡ ok m) × (m ≤ n)) content

All-max :
    (env : Env) (content : Content) (m n : ℕ)
    → m ≤ n
    → All (λ entry. (k : ℕ) × (env.int entry.0 ≡ ok k) × (k ≤ m)) content
    → All (λ entry. (k : ℕ) × (env.int entry.0 ≡ ok k) × (k ≤ n)) content
All-max env [] m n h a = tt
All-max env (entry ∷ content) m n h a =
    let (k, e, l) = a.0 in ((k, e, omega (arith, h, l)), All-max env content m n h a.1)

abbrev Below : Env → Content → List ℕ → Type 0
Below env content ns = All (λ entry. (m : ℕ) × (env.int entry.0 ≡ ok m) × (m ≤ greatest ns)) content

push_ids-Below : (env : Env) (content : Content) → Holds (Below env content) (push_ids env content)
unfolding push_ids greatest
push_ids-Below env [] = tt
push_ids-Below env ((id, push) ∷ content) =
    Holds-eq (Below env ((id, push) ∷ content)) (env.int id) _ (λ n e.
      Holds-then (Below env content) (Below env ((id, push) ∷ content)) (push_ids env content) _
        (push_ids-Below env content)
        (λ ns h. (
          (n, e, omega arith),
          All-max env content (greatest ns) (max n (greatest ns)) (omega arith) h,
        )))

first_node-IsNewest :
    (env : Env) (content : Content) (n : ℕ) (push : Push) (changesets : List Changeset)
    → lookup (env.printing.str n) content ≡ some push
    → push.changesets ≡ changesets
    → All (λ entry. (m : ℕ) × (env.int entry.0 ≡ ok m) × (m ≤ n)) content
    → Holds (IsNewest env content) (first_node changesets)
first_node-IsNewest env content n push [] e f a = tt
first_node-IsNewest env content n push (c ∷ cs) e f a = (n, push, c, cs, e, f, refl, a)

found-IsNewest :
    (env : Env) (content : Content) (n : ℕ) (k : String) (found : Option Push)
    → lookup (env.printing.str n) content ≡ found
    → All (λ entry. (m : ℕ) × (env.int entry.0 ≡ ok m) × (m ≤ n)) content
    → Holds (IsNewest env content) (or_key_error k found >>= λ push. first_node push.changesets)
found-IsNewest env content n k none e a = tt
found-IsNewest env content n k (some push) e a =
    first_node-IsNewest env content n push push.changesets e refl a

top_revision-IsNewest :
    (env : Env) (content : Content) → Holds (IsNewest env content) (top_revision env content)
unfolding top_revision
top_revision-IsNewest env content =
    Holds-then (Below env content) (IsNewest env content) (push_ids env content) _
      (push_ids-Below env content) (λ ns a. found-IsNewest env content (greatest ns) _ _ refl a)

-- the log from this push is answered with 404
abbrev pub IsUnknown : Service → Option String → Type 0
IsUnknown s last_push =
    (p : String) × (last_push ≡ some p) × (s.extract (some p) ≡ inl (http_error 404))

-- the cached push is the one that it was, or dropped since it is unknown
abbrev pub IsKept : Service → World → World → Type 0
IsKept s w v = (v.last_push ≡ w.last_push) ⊎ ((v.last_push ≡ none) × IsUnknown s w.last_push)

-- how a run ends: where nothing came, where the result sets of what came were posted, or with an exception
pub data EndsAs (s : Service) (env : Env) (repository : String) (w : World)
    : Option Failure × World → Type 0 where
  idle :
      (change : Option String) (v : World)
      → s.extract change ≡ inr []
      → v.posted ≡ w.posted
      → IsKept s w v
      → EndsAs s env repository w (none, v)
  advanced :
      (change : Option String) (content : Content) (top : String) (v : World)
      → s.extract change ≡ inr content
      → IsNewest env content top
      → v.posted ≡ w.posted ++ (repository, map (result_set_of env repository) content) ∷ []
      → v.last_push ≡ some top
      → EndsAs s env repository w (none, v)
  failed : (f : Failure) (v : World) → IsKept s w v → EndsAs s env repository w (some f, v)

abbrev From : Service → World → (Failure ⊎ Content) × World → Type 0
From s w (x, v) =
    (change : Option String) × (s.extract change ≡ x) × (v.posted ≡ w.posted) × IsKept s w v

on_cached-From :
    (s : Service) (p : String) (x : Failure ⊎ Content) (w : World)
    → w.last_push ≡ some p
    → s.extract (some p) ≡ x
    → From s w (on_cached s x w)
unfolding on_cached
on_cached-From s p (inr content) w q e = (some p, e, refl, inl refl)
on_cached-From s p (inl (error f)) w q e = (some p, e, refl, inl refl)
on_cached-From s p (inl (http_error n)) w q e = elim (Bool-cases (n == 404)) [
  | inl f ↦
      let unknown : n ≡ 404 = (==_iff n 404).0 f in
      rw f (none, refl, refl, inr (refl, (p, q, e ∙ ap (λ m. inl (http_error m)) unknown)))
  | inr f ↦ rw f (some p, e, refl, inl refl)
]

extract_from-From :
    (s : Service) (last_push : Option String) (w : World)
    → w.last_push ≡ last_push
    → From s w (extract_from s last_push w)
unfolding extract_from
extract_from-From s none w q = (none, refl, refl, inl refl)
extract_from-From s (some p) w q = elim (Bool-cases (str_eq p "")) [
  | inl f ↦ rw f (none, refl, refl, inl refl)
  | inr f ↦ rw f (on_cached-From s p (s.extract (some p)) w q refl)
]

loaded-EndsAs :
    (s : Service) (env : Env) (repository top : String) (change : Option String) (content : Content)
    (w v : World) (answer : Option Failure)
    → s.extract change ≡ inr content
    → IsNewest env content top
    → v.posted ≡ w.posted ++ (repository, map (result_set_of env repository) content) ∷ []
    → IsKept s w v
    → EndsAs s env repository w (on_loaded top (or_next (answer, v) (none, v)))
loaded-EndsAs s env repository top change content w v none e h p k =
    advanced change content top (record v { last_push = some top }) e h p refl
loaded-EndsAs s env repository top change content w v (some f) e h p k = failed f v k

on_top-EndsAs :
    (s : Service) (env : Env) (repository : String) (change : Option String) (entry : String × Push)
    (content : Content) (w v : World) (top : Result String)
    → s.extract change ≡ inr (entry ∷ content)
    → Holds (IsNewest env (entry ∷ content)) top
    → v.posted ≡ w.posted
    → IsKept s w v
    → EndsAs s env repository w (on_top s env repository (entry ∷ content) top v)
unfolding on_top load
on_top-EndsAs s env repository change entry content w v (err e) q h p k = failed (error e) v k
on_top-EndsAs s env repository change entry content w v (ok top) q h p k =
    rw (transform_lem env repository entry content) (
      loaded-EndsAs s env repository top change (entry ∷ content) w _ _ q h
        (ap
          (λ posted.
            posted ++ (repository, map (result_set_of env repository) (entry ∷ content)) ∷ [])
          p)
        k)

on_extracted-EndsAs :
    (s : Service) (env : Env) (repository : String) (w : World)
    (extracted : (Failure ⊎ Content) × World)
    → From s w extracted
    → EndsAs s env repository w (on_extracted s env repository extracted)
unfolding on_extracted
on_extracted-EndsAs s env repository w (inl f, v) (change, e, p, k) = failed f v k
on_extracted-EndsAs s env repository w (inr [], v) (change, e, p, k) = idle change v e p k
on_extracted-EndsAs s env repository w (inr (entry ∷ content), v) (change, e, p, k) =
    on_top-EndsAs s env repository change entry content w v _ e
      (top_revision-IsNewest env (entry ∷ content)) p k

-- A run ends in one of three ways. Nothing came, nothing is posted and the cached push is kept. Or the
-- result sets of all pushes that came are posted at once, whatever status answers, and the cached push
-- becomes the first revision of the push with the greatest id. Or it raises, and the cached push is kept.
-- Where it is kept, it may be dropped in place of that if the log from it is answered with 404.
pub run-EndsAs :
    (s : Service) (env : Env) (repository : String) (w : World)
    → EndsAs s env repository w (run s env repository w)
unfolding run
run-EndsAs s env repository w =
    on_extracted-EndsAs s env repository w (extract_from s w.last_push w)
      (extract_from-From s w.last_push w refl)
