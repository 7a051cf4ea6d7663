-- ===== src/RefData/All.antt =====
-- The processing of option collections and signatures, and set_all_reference_data of
-- treeherder/model/derived/refdata.py.
use treeherder_service.Prelude.{
  ℕ, String, Bool, ◌&&◌, ◌==◌, none, List, [], ◌∷◌, ◌++◌, map, str_eq, if◌then◌else◌, lookup,
  string_eq, exists,
}
use treeherder_service.Json.{Result, ok, ◌>>=◌}
use treeherder_service.RefData.{RefData, Options, Signature, new}
use treeherder_service.RefData.Tables.{Table, create_row, clauses, get_rows}
use treeherder_service.RefData.Process.{
  or_key_error, ReadHost, by_name, Entry, process_platforms, process_names,
  process_names_and_symbols, process_job_types, process_machines,
}

unfoldable pub create_options : List (String × String) → Table → Table
unfolding create_row
create_options [] t = t
create_options ((name, test) ∷ ps) t = create_options ps (create_row 1 none (name ∷ test ∷ []) t)

-- _get_or_create_options
unfoldable pub get_or_create_options : ReadHost → Options → Table → List (String × ℕ) × Table
unfolding create_options clauses get_rows by_name
get_or_create_options read o t =
    let written = create_options o.placeholders t in
    elim o.placeholders [
      | [] ↦ ([], t)
      | p ∷ ps ↦
          (by_name (get_rows (clauses 1 o.where_in o.unique) (read written.rows)) [], written)
    ]

-- a row of `option_collection`: the hash and the id of the option
abbrev pub Collection : Type 0
Collection = String × ℕ

unfoldable pub has_collection : Collection → List Collection → Bool
has_collection (hash, option_id) =
    exists (λ (row : Collection). str_eq row.0 hash && row.1 == option_id)

-- reference.inserts.create_option_collection, on each row of placeholders
unfoldable pub create_collections : List Collection → List Collection → List Collection
unfolding has_collection
create_collections [] rows = rows
create_collections (p ∷ ps) rows =
    create_collections ps (if has_collection p rows then rows else rows ++ p ∷ [])

unfoldable pub rows_of_set : String → List String → List (String × ℕ) → Result (List Collection)
rows_of_set hash [] ids = ok []
rows_of_set hash (o ∷ os) ids = do
  id ← or_key_error o (lookup o ids)
  rest ← rows_of_set hash os ids
  ok ((hash, id) ∷ rest)

unfoldable pub collection_rows :
    List (String × List String) → List (String × ℕ) → Result (List Collection)
unfolding rows_of_set
collection_rows [] ids = ok []
collection_rows ((hash, options) ∷ sets) ids = do
  first ← rows_of_set hash options ids
  rest ← collection_rows sets ids
  ok (first ++ rest)

-- process_option_collections: the hashes with their options, and the tables
unfoldable pub process_option_collections :
    ReadHost
    → Options
    → Table
    → List Collection
    → Result (List (String × List String) × Table × List Collection)
unfolding get_or_create_options collection_rows create_collections
process_option_collections read o options collections =
    let (ids, written) = get_or_create_options read o options in
    do
      rows ← collection_rows o.collections ids
      ok (
        elim rows [ [] ↦ [] | row ∷ rest ↦ o.collections ],
        written,
        create_collections rows collections,
      )

-- reference.inserts.create_reference_data_signature
abbrev pub is_signature : Signature → Signature → Bool
is_signature s row =
    str_eq row.name s.name
    && str_eq row.signature s.signature
    && str_eq row.build_system_type s.build_system_type
    && str_eq row.repository s.repository

unfoldable pub create_signatures : List Signature → List Signature → List Signature
create_signatures [] rows = rows
create_signatures (s ∷ ss) rows =
    create_signatures ss (if exists (is_signature s) rows then rows else rows ++ s ∷ [])

-- the tables of the database
pub record Db : Type 0 where
  pub signatures : List Signature
  pub build_platforms : Table
  pub machine_platforms : Table
  pub job_groups : Table
  pub job_types : Table
  pub products : Table
  pub machines : Table
  pub devices : Table
  pub options : Table
  pub option_collections : List Collection

-- `self.id_lookup`
pub record IdLookup : Type 0 where
  pub reference_data_signatures : List String
  pub build_platforms : List (String × ℕ)
  pub machine_platforms : List (String × ℕ)
  pub job_groups : List (String × Entry)
  pub job_types : List (String × Entry)
  pub products : List (String × ℕ)
  pub machines : List (String × ℕ)
  pub devices : List (String × ℕ)
  pub option_collections : List (String × List String)

-- The lookups, the manager behind the reset, and the tables.
unfoldable pub set_all_reference_data : ReadHost → RefData → Db → Result (IdLookup × RefData × Db)
unfolding create_signatures process_platforms process_names process_names_and_symbols
    process_job_types process_machines process_option_collections
set_all_reference_data read r db = do
  (build, build_table) ← process_platforms r.build_platforms db.build_platforms
  (machine, machine_table) ← process_platforms r.machine_platforms db.machine_platforms
  let groups = process_names_and_symbols r.job_groups db.job_groups
  (types, type_table) ← process_job_types r.job_type_to_group groups.0 r.job_types db.job_types
  let products = process_names read r.products db.products
  let machines = process_machines read r.machines db.machines
  let devices = process_names read r.devices db.devices
  (collections, option_table, collection_table) ←
      process_option_collections read r.options db.options db.option_collections
  ok (
    record {
      reference_data_signatures = map (λ s. s.0) r.signatures;
      build_platforms = build;
      machine_platforms = machine;
      job_groups = groups.0;
      job_types = types;
      products = products.0;
      machines = machines.0;
      devices = devices.0;
      option_collections = collections;
    },
    new,
    record {
      signatures = create_signatures r.signature_placeholders db.signatures;
      build_platforms = build_table;
      machine_platforms = machine_table;
      job_groups = groups.1;
      job_types = type_table;
      products = products.1;
      machines = machines.1;
      devices = devices.1;
      options = option_table;
      option_collections = collection_table;
    },
  )
