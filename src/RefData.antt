-- ===== src/RefData.antt =====
-- What `RefDataManager` of treeherder/model/derived/refdata.py collects of the reference data of a
-- batch of jobs before it writes any of it: the lookups, placeholders and WHERE clauses that the
-- `add_*` methods extend. A Python set is a list without repetition, in the order of insertion.
pub mod OptionSets
pub mod Lookups
pub mod Tables
pub mod Process
pub mod Complete
pub mod Platforms
pub mod Found
pub mod Written
pub mod Linked
pub mod All
use Prim.Native.Char.{code}
use Prim.Native.String.{◌++◌ as append, [] as empty_text, ◌∷◌ as char_cons}
use treeherder_service.Prelude.{
  ℕ, String, Bool, true, false, not, ◌&&◌, ◌||◌, Option, none, some, List, [], ◌∷◌, ◌++◌, map, ◌==◌,
  str_eq, ltb, if◌then◌else◌, keep, contains, lookup, insert, string_eq, take_text,
}

-- A lookup with what it holds beside the id 0, the rows to insert, the texts of the id query and
-- the clauses of its WHERE.
pub record Collected : Type 0 where
  pub entries : List (String × List String)
  pub placeholders : List (List String)
  pub unique : List String
  pub where_filters : List String

pub record Machines : Type 0 where
  pub names : List String
  pub placeholders : List (String × ℕ × ℕ × String)
  pub unique : List String
  pub where_in : List String
  pub updates : List (ℕ × String)

pub record Options : Type 0 where
  pub known : List String
  pub placeholders : List (String × String)
  pub unique : List String
  pub where_in : List String
  pub collections : List (String × List String)

pub record Group : Type 0 where
  pub group_key : String
  pub job_type : String
  pub job_symbol : String

pub record Signature : Type 0 where
  pub name : String
  pub signature : String
  pub properties : List String
  pub first_submission : ℕ
  pub build_system_type : String
  pub repository : String

pub record RefData : Type 0 where
  pub build_platforms : Collected
  pub machine_platforms : Collected
  pub machines : Machines
  pub options : Options
  pub devices : Collected
  pub products : Collected
  pub job_groups : Collected
  pub job_types : Collected
  pub job_type_to_group : List (String × Group)
  pub signatures : List (String × List String)
  pub signature_placeholders : List Signature

abbrev pub nothing : Collected
nothing = record { entries = []; placeholders = []; unique = []; where_filters = [] }

abbrev pub new : RefData
new = record {
  build_platforms = nothing;
  machine_platforms = nothing;
  machines = record { names = []; placeholders = []; unique = []; where_in = []; updates = [] };
  options = record { known = []; placeholders = []; unique = []; where_in = []; collections = [] };
  devices = nothing;
  products = nothing;
  job_groups = nothing;
  job_types = nothing;
  job_type_to_group = [];
  signatures = [];
  signature_placeholders = [];
}

-- What the code takes of `hashlib` and `time`.
pub record Library : Type 0 where
  pub sha1_hex : String → String
  pub now : ℕ

-- `s or default`
abbrev pub or_text : String → String → String
or_text s d = if str_eq s "" then d else s

-- `key in d`
abbrev pub has_key {ℓ} : {A : Type ℓ} → String → List (String × A) → Bool
has_key k [] = false
has_key k ((j, v) ∷ d) = str_eq j k || has_key k d

abbrev pub get_platform_key : String → String → String → String
get_platform_key os_name platform architecture =
    append os_name (append "-" (append platform (append "-" architecture)))

abbrev pub get_name_symbol_key : String → String → String
get_name_symbol_key name symbol = append name (append "-" symbol)

-- the four structures are extended together, by a key that is new
unfoldable pub collect :
    String → List String → List String → List String → String → Collected → Collected
collect key fields row texts filter c = if has_key key c.entries then c else record {
  entries = c.entries ++ (key, fields) ∷ [];
  placeholders = c.placeholders ++ row ∷ [];
  unique = c.unique ++ texts;
  where_filters = c.where_filters ++ filter ∷ [];
}

unfoldable pub add_platform_to : String → String → String → Collected → Collected
unfolding collect
add_platform_to os_name platform arch =
    collect (get_platform_key os_name platform arch) (os_name ∷ platform ∷ arch ∷ [])
      (os_name ∷ platform ∷ arch ∷ os_name ∷ platform ∷ arch ∷ []) (os_name ∷ platform ∷ arch ∷ [])
      "(`os_name` = %s  AND `platform` = %s  AND `architecture` = %s)"

unfoldable pub add_name_to : String → Collected → Collected
unfolding collect
add_name_to name = collect name [] (name ∷ name ∷ []) (name ∷ []) "%s"

unfoldable pub add_name_and_symbol_to : String → String → Collected → Collected
unfolding collect
add_name_and_symbol_to name symbol =
    collect (get_name_symbol_key name symbol) (name ∷ symbol ∷ [])
      (name ∷ symbol ∷ name ∷ symbol ∷ []) (name ∷ symbol ∷ []) "(`name` = %s  AND `symbol` = %s)"

-- a field of a platform, cut to the width of its column
abbrev pub platform_field : String → String
platform_field s = take_text 25 (or_text s "unknown")

unfoldable pub add_build_platform : String → String → String → RefData → String × RefData
unfolding add_platform_to
add_build_platform os_name platform arch r =
    let os_name = platform_field os_name in
    let platform = platform_field platform in
    let arch = platform_field arch in
    (
      get_platform_key os_name platform arch,
      record r { build_platforms = add_platform_to os_name platform arch r.build_platforms },
    )

unfoldable pub add_machine_platform : String → String → String → RefData → String × RefData
unfolding add_platform_to
add_machine_platform os_name platform arch r =
    let os_name = platform_field os_name in
    let platform = platform_field platform in
    let arch = platform_field arch in
    (
      get_platform_key os_name platform arch,
      record r { machine_platforms = add_platform_to os_name platform arch r.machine_platforms },
    )

unfoldable pub add_job_type : String → String → String → String → RefData → String × RefData
unfolding add_name_and_symbol_to
add_job_type job_type job_symbol group_name group_symbol r =
    let job_type = take_text 100 (or_text job_type "unknown") in
    let job_symbol = take_text 25 (or_text job_symbol "?") in
    let group_name = take_text 100 (or_text group_name "unknown") in
    let group_symbol = take_text 25 (or_text group_symbol "?") in
    let job_key = get_name_symbol_key job_type job_symbol in
    let group_key = get_name_symbol_key group_name group_symbol in
    (
      job_key,
      record r {
        job_groups = add_name_and_symbol_to group_name group_symbol r.job_groups;
        job_types = add_name_and_symbol_to job_type job_symbol r.job_types;
        job_type_to_group =
            insert job_key
              (record { group_key = group_key; job_type = job_type; job_symbol = job_symbol })
              r.job_type_to_group;
      },
    )

unfoldable pub add_product : String → RefData → RefData
unfolding add_name_to
add_product product r = record r {
  products = add_name_to (take_text 50 (or_text product "unknown")) r.products;
}

unfoldable pub add_device : String → RefData → RefData
unfolding add_name_to
add_device device r = record r {
  devices = add_name_to (take_text 50 (or_text device "unknown")) r.devices;
}

-- The test for a known machine is made on the name as it came, and the cut name is remembered.
unfoldable pub add_machine_to : Library → String → ℕ → Machines → Machines
add_machine_to l machine_name timestamp m =
    if contains machine_name m.names
    then m
    else (let name = take_text 50 (or_text machine_name "unknown") in
        let time = (if timestamp == 0 then l.now else timestamp) in
        record {
          names = if contains name m.names then m.names else m.names ++ name ∷ [];
          placeholders = m.placeholders ++ (name, time, time, name) ∷ [];
          unique = m.unique ++ name ∷ [];
          where_in = m.where_in ++ "%s" ∷ [];
          updates = m.updates ++ (time, name) ∷ [];
        })

unfoldable pub add_machine : Library → String → ℕ → RefData → RefData
unfolding add_machine_to
add_machine l machine_name timestamp r = record r {
  machines = add_machine_to l machine_name timestamp r.machines;
}
