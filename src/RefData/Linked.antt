-- ===== src/RefData/Linked.antt =====
-- The structures that are collected together in treeherder/model/derived/refdata.py speak of the same
-- columns: the rows to insert, the texts of the id query, and the keys of the lookup.
use treeherder_service.Prelude.{
  ℕ, String, ◌≡◌, refl, ap, sym, ◌∙◌, List, [], ◌∷◌, ◌++◌, length, length-append, All, All-append,
  append_assoc, append-nil, Bool-cases, inl, inr, arith,
}
use treeherder_service.RefData.{
  Collected, RefData, Library, nothing, new, has_key, collect, add_platform_to, add_name_to,
  add_name_and_symbol_to, add_build_platform, add_machine_platform, add_job_type, add_product,
  add_device, add_machine, platform_field,
}
use treeherder_service.RefData.OptionSets.{
  add_option_collection, add_reference_data_signature, get_reference_data_signature,
}
use treeherder_service.RefData.Process.{platform_key, name_of, name_symbol_key}
use treeherder_service.RefData.Lookups.{
  Add, build_platform, machine_platform, job_type, product, device, machine, option_collection,
  signature, run, run_all,
}

abbrev pub keys {ℓ} : {A : Type ℓ} → List (String × A) → List String
keys [] = []
keys ((k, v) ∷ d) = k ∷ keys d

unfoldable pub keys_of : (List String → String) → List (List String) → List String
keys_of key [] = []
keys_of key (cs ∷ css) = key cs ∷ keys_of key css

unfoldable pub twice : List (List String) → List (List String)
twice [] = []
twice (cs ∷ css) = (cs ++ cs) ∷ twice css

unfoldable pub concat : List (List String) → List String
concat [] = []
concat (cs ∷ css) = cs ++ concat css

abbrev pub HasWidth : ℕ → List String → Type 0
HasWidth n cs = length cs ≡ n

-- The collected data of rows that have n columns to name them.
pub data Linked (key : List String → String) (n : ℕ) : Collected → Type 0 where
  linked :
      (css : List (List String)) (entries : List (String × List String)) (filters : List String)
      (ps : List (List String)) (us : List String)
      → keys entries ≡ keys_of key css
      → ps ≡ twice css
      → us ≡ concat css
      → length filters ≡ length css
      → All (HasWidth n) css
      → Linked key n
          (record { entries = entries; placeholders = ps; unique = us; where_filters = filters })

keys-snoc {ℓ} :
    {A : Type ℓ} (k : String) (v : A) (d : List (String × A))
    → keys (d ++ (k, v) ∷ []) ≡ keys d ++ k ∷ []
keys-snoc k v [] = refl
keys-snoc k v ((j, w) ∷ d) = ap (λ x. j ∷ x) (keys-snoc k v d)

keys_of-snoc :
    (key : List String → String) (cs : List String) (css : List (List String))
    → keys_of key (css ++ cs ∷ []) ≡ keys_of key css ++ key cs ∷ []
unfolding keys_of
keys_of-snoc key cs [] = refl
keys_of-snoc key cs (ds ∷ css) = ap (λ x. key ds ∷ x) (keys_of-snoc key cs css)

twice-snoc :
    (cs : List String) (css : List (List String))
    → twice (css ++ cs ∷ []) ≡ twice css ++ (cs ++ cs) ∷ []
unfolding twice
twice-snoc cs [] = refl
twice-snoc cs (ds ∷ css) = ap (λ x. (ds ++ ds) ∷ x) (twice-snoc cs css)

concat-snoc :
    (cs : List String) (css : List (List String)) → concat (css ++ cs ∷ []) ≡ concat css ++ cs
unfolding concat
concat-snoc cs [] = append-nil cs
concat-snoc cs (ds ∷ css) = simp (concat-snoc cs css, append_assoc)

collect-Linked :
    (key : List String → String) (n : ℕ) (cs fields : List String) (filter : String) (c : Collected)
    → length cs ≡ n
    → Linked key n c
    → Linked key n (collect (key cs) fields (cs ++ cs) cs filter c)
unfolding collect
collect-Linked key n cs fields filter c h (linked css entries filters ps us k p u f w) =
    elim (Bool-cases (has_key (key cs) entries)) [
      | inl e ↦ rw e (linked css entries filters ps us k p u f w)
      | inr e ↦ rw e (
          linked (css ++ cs ∷ []) _ _ _ _
            (keys-snoc (key cs) fields entries ∙ rw k (sym (keys_of-snoc key cs css)))
            (rw p (sym (twice-snoc cs css))) (rw u (sym (concat-snoc cs css)))
            (omega (arith, f, length-append filters (filter ∷ []), length-append css (cs ∷ [])))
            (All-append (HasWidth n) css (cs ∷ []) w (h, tt)))
    ]

nothing-Linked : (key : List String → String) (n : ℕ) → Linked key n nothing
unfolding keys_of twice concat
nothing-Linked key n = linked [] [] [] [] [] refl refl refl refl tt

-- the collected data of platforms, names, and names with symbols
abbrev pub AllLinked : RefData → Type 0
AllLinked r =
    Linked platform_key 3 r.build_platforms
    × Linked platform_key 3 r.machine_platforms
    × Linked name_of 1 r.devices
    × Linked name_of 1 r.products
    × Linked name_symbol_key 2 r.job_groups
    × Linked name_symbol_key 2 r.job_types

platform-Linked :
    (o p a : String) (c : Collected)
    → Linked platform_key 3 c
    → Linked platform_key 3 (add_platform_to o p a c)
unfolding add_platform_to platform_key
platform-Linked o p a c h = collect-Linked platform_key 3 (o ∷ p ∷ a ∷ []) _ _ c refl h

name-Linked :
    (name : String) (c : Collected) → Linked name_of 1 c → Linked name_of 1 (add_name_to name c)
unfolding add_name_to name_of
name-Linked name c h = collect-Linked name_of 1 (name ∷ []) _ _ c refl h

name_and_symbol-Linked :
    (name symbol : String) (c : Collected)
    → Linked name_symbol_key 2 c
    → Linked name_symbol_key 2 (add_name_and_symbol_to name symbol c)
unfolding add_name_and_symbol_to name_symbol_key
name_and_symbol-Linked name symbol c h =
    collect-Linked name_symbol_key 2 (name ∷ symbol ∷ []) _ _ c refl h

run-AllLinked : (l : Library) (a : Add) (r : RefData) → AllLinked r → AllLinked (run l a r)
unfolding run add_build_platform add_machine_platform add_job_type add_product add_device
    add_machine add_option_collection add_reference_data_signature
run-AllLinked l (build_platform o p a) r (bp, mp, d, pr, g, t) =
    (platform-Linked (platform_field o) (platform_field p) (platform_field a) _ bp, mp, d, pr, g, t)
run-AllLinked l (machine_platform o p a) r (bp, mp, d, pr, g, t) =
    (bp, platform-Linked (platform_field o) (platform_field p) (platform_field a) _ mp, d, pr, g, t)
run-AllLinked l (job_type n s h i) r (bp, mp, d, pr, g, t) =
    (bp, mp, d, pr, name_and_symbol-Linked _ _ _ g, name_and_symbol-Linked _ _ _ t)
run-AllLinked l (product p) r (bp, mp, d, pr, g, t) = (bp, mp, d, name-Linked _ _ pr, g, t)
run-AllLinked l (device n) r (bp, mp, d, pr, g, t) = (bp, mp, name-Linked _ _ d, pr, g, t)
run-AllLinked l (machine n u) r v = v
run-AllLinked l (option_collection os) r v = v
run-AllLinked l (signature n b p ps) r v =
    elim (Bool-cases (has_key (get_reference_data_signature l ps) r.signatures)) [
      | inl e ↦ rw e v
      | inr e ↦ rw e v
    ]

run_all-keeps :
    (l : Library) (calls : List Add) (r : RefData) → AllLinked r → AllLinked (run_all l calls r)
unfolding run_all
run_all-keeps l [] r v = v
run_all-keeps l (a ∷ calls) r v = run_all-keeps l calls (run l a r) (run-AllLinked l a r v)

pub run_all-AllLinked : (l : Library) (calls : List Add) → AllLinked (run_all l calls new)
run_all-AllLinked l calls = run_all-keeps l calls new (
  nothing-Linked _ _,
  nothing-Linked _ _,
  nothing-Linked _ _,
  nothing-Linked _ _,
  nothing-Linked _ _,
  nothing-Linked _ _,
)
