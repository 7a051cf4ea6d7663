-- ===== src/RefData/Lookups.antt =====
-- What the `add_*` methods of treeherder/model/derived/refdata.py keep of the collected data.
use treeherder_service.Prelude.{
  ltb→lt, text_length-take, ℕ, String, ◌≡◌, refl, ap, ◌∙◌, sym, Bool, true, false, not, ◌&&◌, ◌||◌,
  Option, List, [], ◌∷◌, ◌++◌, arith, str_eq, eq_iff, eq_refl, ltb, contains, string_eq, take_text,
  text_length, length, length-append, Bool-cases, inl, inr,
}
use treeherder_service.RefData.{
  Collected, RefData, Machines, Library, or_text, has_key, collect, new, get_platform_key,
  add_platform_to, add_name_to, add_name_and_symbol_to, add_build_platform, add_machine_platform,
  add_job_type, add_product, add_device, add_machine_to, add_machine,
}
use treeherder_service.RefData.OptionSets.{
  add_option_collection, get_reference_data_signature, add_reference_data_signature,
}

-- no key stands twice
unfoldable pub unique_keys {ℓ} : {A : Type ℓ} → List (String × A) → Bool
unique_keys [] = true
unique_keys ((k, v) ∷ d) = not (has_key k d) && unique_keys d

-- One row to insert and one clause of the query for each key.
abbrev pub IsValid : Collected → Type 0
IsValid c =
    (unique_keys c.entries ≡ true)
    × (length c.placeholders ≡ length c.entries)
    × (length c.where_filters ≡ length c.entries)

has_key-append {ℓ} :
    {A : Type ℓ} (k j : String) (v : A) (d : List (String × A))
    → has_key k (d ++ (j, v) ∷ []) ≡ (has_key k d || str_eq j k)
has_key-append k j v [] = ground arith
has_key-append k j v ((i, w) ∷ d) = ground (arith, has_key-append k j v d)

unique_keys-append {ℓ} :
    {A : Type ℓ} (j : String) (v : A) (d : List (String × A))
    → has_key j d ≡ false
    → unique_keys d ≡ true
    → unique_keys (d ++ (j, v) ∷ []) ≡ true
unfolding unique_keys
unique_keys-append j v [] h u = refl
unique_keys-append j v ((i, w) ∷ d) h u =
    ground (arith, unique_keys-append j v d, has_key-append i j v d, eq_iff i j, eq_iff j i)

collect-IsValid :
    (key : String) (fields row texts : List String) (filter : String) (c : Collected)
    → IsValid c
    → IsValid (collect key fields row texts filter c)
unfolding collect
collect-IsValid key fields row texts filter c (u, p, w) =
    elim (Bool-cases (has_key key c.entries)) [
      | inl e ↦ rw e (u, p, w)
      | inr e ↦ rw e (
        unique_keys-append key fields c.entries e u,
        omega (
          arith,
          length-append c.placeholders (row ∷ []),
          length-append c.entries ((key, fields) ∷ []),
          p,
        ),
        omega (
          arith,
          length-append c.where_filters (filter ∷ []),
          length-append c.entries ((key, fields) ∷ []),
          w,
        ),
      )
    ]

has_key-collect :
    (key : String) (fields row texts : List String) (filter : String) (c : Collected)
    → has_key key (collect key fields row texts filter c).entries ≡ true
unfolding collect
has_key-collect key fields row texts filter c = elim (Bool-cases (has_key key c.entries)) [
  | inl e ↦ rw (e) e
  | inr e ↦ rw (e) (has_key-append key key fields c.entries ∙ rw (e, eq_refl key) refl)
]

collect-known :
    (key : String) (fields row texts : List String) (filter : String) (c : Collected)
    → has_key key c.entries ≡ true
    → collect key fields row texts filter c ≡ c
unfolding collect
collect-known key fields row texts filter c h = rw h refl

-- A platform with the key of a platform that was added before, of the same fields or of others,
-- leaves what is collected as it is: no row is inserted and no id is asked for it.
add_platform_to-known :
    (os_name platform arch other_os other_platform other_arch : String) (c : Collected)
    → get_platform_key other_os other_platform other_arch ≡ get_platform_key os_name platform arch
    → add_platform_to other_os other_platform other_arch (add_platform_to os_name platform arch c)
      ≡ add_platform_to os_name platform arch c
unfolding add_platform_to
add_platform_to-known os_name platform arch other_os other_platform other_arch c h =
    collect-known (get_platform_key other_os other_platform other_arch) _ _ _ _
      (add_platform_to os_name platform arch c)
      (rw h (
        has_key-collect (get_platform_key os_name platform arch) (os_name ∷ platform ∷ arch ∷ [])
          (os_name ∷ platform ∷ arch ∷ os_name ∷ platform ∷ arch ∷ [])
          (os_name ∷ platform ∷ arch ∷ [])
          "(`os_name` = %s  AND `platform` = %s  AND `architecture` = %s)" c))

-- one call of an `add_*` method
pub data Add : Type 0 where
  build_platform machine_platform : String → String → String → Add
  job_type : String → String → String → String → Add
  product device : String → Add
  machine : String → ℕ → Add
  option_collection : List String → Add
  signature : Option String → String → String → List String → Add

unfoldable pub run : Library → Add → RefData → RefData
run l (build_platform o p a) r = (add_build_platform o p a r).1
run l (machine_platform o p a) r = (add_machine_platform o p a r).1
run l (job_type n s g h) r = (add_job_type n s g h r).1
run l (product p) r = add_product p r
run l (device d) r = add_device d r
run l (machine n t) r = add_machine l n t r
run l (option_collection os) r = (add_option_collection l os r).1
run l (signature n b p ps) r = (add_reference_data_signature l n b p ps r).1

unfoldable pub run_all : Library → List Add → RefData → RefData
unfolding run
run_all l [] r = r
run_all l (a ∷ calls) r = run_all l calls (run l a r)

-- the lookups of the reference data but for those of machines and options, and the hashes that are kept once
abbrev pub AllValid : RefData → Type 0
AllValid r =
    IsValid r.build_platforms
    × IsValid r.machine_platforms
    × IsValid r.devices
    × IsValid r.products
    × IsValid r.job_groups
    × IsValid r.job_types
    × (unique_keys r.signatures ≡ true)
    × (length r.signature_placeholders ≡ length r.signatures)

signature-AllValid :
    (l : Library) (n : Option String) (b p : String) (ps : List String) (r : RefData)
    → AllValid r
    → AllValid (add_reference_data_signature l n b p ps r).1
unfolding add_reference_data_signature
signature-AllValid l n b p ps r (bp, mp, d, pr, g, t, u, s) =
    elim (Bool-cases (has_key (get_reference_data_signature l ps) r.signatures)) [
      | inl e ↦ rw e (bp, mp, d, pr, g, t, u, s)
      | inr e ↦ rw e (
        bp,
        mp,
        d,
        pr,
        g,
        t,
        unique_keys-append (get_reference_data_signature l ps) ps r.signatures e u,
        length-append r.signature_placeholders _
            ∙ rw s
                (sym (length-append r.signatures ((get_reference_data_signature l ps, ps) ∷ []))),
      )
    ]

run-AllValid : (l : Library) (a : Add) (r : RefData) → AllValid r → AllValid (run l a r)
unfolding run add_build_platform add_machine_platform add_job_type add_product add_device
    add_machine add_option_collection add_platform_to add_name_to add_name_and_symbol_to
run-AllValid l (build_platform o p a) r (bp, mp, d, pr, g, t, u, s) =
    (collect-IsValid _ _ _ _ _ r.build_platforms bp, mp, d, pr, g, t, u, s)
run-AllValid l (machine_platform o p a) r (bp, mp, d, pr, g, t, u, s) =
    (bp, collect-IsValid _ _ _ _ _ r.machine_platforms mp, d, pr, g, t, u, s)
run-AllValid l (job_type n y h i) r (bp, mp, d, pr, g, t, u, s) = (
  bp,
  mp,
  d,
  pr,
  collect-IsValid _ _ _ _ _ r.job_groups g,
  collect-IsValid _ _ _ _ _ r.job_types t,
  u,
  s,
)
run-AllValid l (product p) r (bp, mp, d, pr, g, t, u, s) =
    (bp, mp, d, collect-IsValid _ _ _ _ _ r.products pr, g, t, u, s)
run-AllValid l (device n) r (bp, mp, d, pr, g, t, u, s) =
    (bp, mp, collect-IsValid _ _ _ _ _ r.devices d, pr, g, t, u, s)
run-AllValid l (machine n t) r v = v
run-AllValid l (option_collection os) r v = v
run-AllValid l (signature n b p ps) r v = signature-AllValid l n b p ps r v

run_all-keeps :
    (l : Library) (calls : List Add) (r : RefData) → AllValid r → AllValid (run_all l calls r)
unfolding run_all
run_all-keeps l [] r v = v
run_all-keeps l (a ∷ calls) r v = run_all-keeps l calls (run l a r) (run-AllValid l a r v)

-- After any calls of the add methods on a new manager the lookups of build and machine platforms,
-- devices, products, job groups and job types have each key once, with one row to insert and one
-- clause of the id query for each key, and each signature stands once and has one row.
pub run_all-AllValid : (l : Library) (calls : List Add) → AllValid (run_all l calls new)
unfolding unique_keys
run_all-AllValid l calls = run_all-keeps l calls new (
  (refl, refl, refl),
  (refl, refl, refl),
  (refl, refl, refl),
  (refl, refl, refl),
  (refl, refl, refl),
  (refl, refl, refl),
  refl,
  refl,
)

contains-append :
    (m n : String) (names : List String)
    → contains m (names ++ n ∷ []) ≡ (contains m names || str_eq n m)
contains-append m n [] = ground arith
contains-append m n (i ∷ names) = ground (arith, contains-append m n names)

take_text-long : (m n : String) → ltb 50 (text_length m) ≡ true → str_eq (take_text 50 n) m ≡ false
take_text-long m n long = elim (Bool-cases (str_eq (take_text 50 n) m)) [
  | inl e ↦ ground (
    arith,
    text_length-take 50 n,
    ap text_length ((eq_iff (take_text 50 n) m).0 e),
    ltb→lt 50 (text_length m) long,
  )
  | inr e ↦ e
]

add_machine_to-long :
    (l : Library) (m n : String) (time : ℕ) (x : Machines)
    → ltb 50 (text_length m) ≡ true
    → contains m x.names ≡ false
    → contains m (add_machine_to l n time x).names ≡ false
unfolding add_machine_to
add_machine_to-long l m n time x long h = elim (Bool-cases (contains n x.names)) [
  | inl e ↦ rw e h
  | inr e ↦ rw e (elim (Bool-cases (contains (take_text 50 (or_text n "unknown")) x.names)) [
    | inl f ↦ rw f h
    | inr f ↦ rw f (
        contains-append m (take_text 50 (or_text n "unknown")) x.names
        ∙ rw (h, take_text-long m (or_text n "unknown") long) refl)
  ])
]

run-long :
    (l : Library) (m : String) (a : Add) (r : RefData)
    → ltb 50 (text_length m) ≡ true
    → contains m r.machines.names ≡ false
    → contains m (run l a r).machines.names ≡ false
unfolding run add_machine add_build_platform add_machine_platform add_job_type add_product
    add_device add_option_collection add_reference_data_signature
run-long l m (build_platform o p a) r long h = h
run-long l m (machine_platform o p a) r long h = h
run-long l m (job_type n s g i) r long h = h
run-long l m (product p) r long h = h
run-long l m (device n) r long h = h
run-long l m (machine n t) r long h = add_machine_to-long l m n t r.machines long h
run-long l m (option_collection os) r long h = h
run-long l m (signature n b p ps) r long h =
    elim (Bool-cases (has_key (get_reference_data_signature l ps) r.signatures)) [
      | inl e ↦ rw e h
      | inr e ↦ rw e h
    ]

run_all-long_keeps :
    (l : Library) (m : String) (calls : List Add) (r : RefData)
    → ltb 50 (text_length m) ≡ true
    → contains m r.machines.names ≡ false
    → contains m (run_all l calls r).machines.names ≡ false
unfolding run_all
run_all-long_keeps l m [] r long h = h
run_all-long_keeps l m (a ∷ calls) r long h =
    run_all-long_keeps l m calls (run l a r) long (run-long l m a r long h)

-- A machine name of more than 50 characters is under no circumstances among the collected names,
-- not even where the machine was added.
pub run_all-long_machine :
    (l : Library) (m : String) (calls : List Add)
    → ltb 50 (text_length m) ≡ true
    → contains m (run_all l calls new).machines.names ≡ false
run_all-long_machine l m calls long = run_all-long_keeps l m calls new long refl
