-- ===== src/Tests/Reference.antt =====
-- The theorems on reference data that is written and read back, at concrete inputs.
use treeherder_service.Prelude.{
  ◌≡◌, refl, true, Option, none, some, List, [], ◌∷◌, lookup, insert, take_text, text_length,
  string_eq, nat_eq,
}
use treeherder_service.Json.{Result, ok, err, Holds}
use treeherder_service.RefData.{
  RefData, Library, new, collect, add_build_platform, add_machine_platform, add_job_type,
  add_product, add_device, add_machine, add_machine_to, add_platform_to, add_name_to,
  add_name_and_symbol_to,
}
use treeherder_service.RefData.OptionSets.{
  add_option_collection, new_options, get_option_collection_hash, join, sort_texts, insert_text,
  text_leb,
}
use treeherder_service.RefData.Lookups.{
  Add, build_platform, machine_platform, job_type, product, device, machine, option_collection, run,
  run_all,
}
use treeherder_service.RefData.Tables.{
  Row, Table, same, has_row, drop, create_row, create_rows, clauses, is_one_of, get_rows,
  update_machine_timestamp, update_job_type_group_id,
}
use treeherder_service.RefData.Process.{
  set_id, platform_key, set_ids, no_ids_yet, process_platforms, put_all, name_of, by_name,
  process_names, name_symbol_key, put_rows, no_rows_yet, process_names_and_symbols, lacks_group,
  group_update, group_updates, update_groups, process_job_types, create_machines, update_timestamps,
  process_machines,
}
use treeherder_service.RefData.All.{
  Db, IdLookup, set_all_reference_data, create_options, get_or_create_options, has_collection,
  create_collections, rows_of_set, collection_rows, process_option_collections, create_signatures,
}
use treeherder_service.RefData.Linked.{keys}
use treeherder_service.RefData.Platforms.{PlatformsHeld}
use treeherder_service.RefData.Complete.{
  IdsHeld, run_all-PlatformsHeld, set_all_reference_data-IdsHeld, process_names-again,
}

abbrev library : Library
library = record { sha1_hex = λ s. s; now = 7 }

abbrev linux : Row
linux = record {
  id = 3;
  columns = "linux" ∷ "linux64" ∷ "x86" ∷ [];
  active = true;
  job_group_id = none;
  last_timestamp = none;
}

abbrev none_yet : Table
none_yet = record { rows = []; next_id = 1 }

abbrev platforms : Table
platforms = record { rows = linux ∷ []; next_id = 4 }

abbrev db : Db
db = record {
  signatures = [];
  build_platforms = platforms;
  machine_platforms = none_yet;
  job_groups = none_yet;
  job_types = none_yet;
  products = none_yet;
  machines = none_yet;
  devices = none_yet;
  options = none_yet;
  option_collections = [];
}

abbrev calls : List Add
calls =
    build_platform "linux" "linux64" "x86"
    ∷ build_platform "win" "win7" "x86"
    ∷ machine_platform "linux" "linux64" "x86"
    ∷ job_type "reftest" "R" "tests" "T"
    ∷ product "firefox"
    ∷ product "firefox"
    ∷ device "phone"
    ∷ machine "host" 5
    ∷ option_collection ("opt" ∷ [])
    ∷ []

abbrev ids : IdLookup
ids = record {
  reference_data_signatures = [];
  build_platforms = ("linux-linux64-x86", 3) ∷ ("win-win7-x86", 4) ∷ [];
  machine_platforms = ("linux-linux64-x86", 1) ∷ [];
  job_groups = ("tests-T", record { id = 1; job_group_id = some none }) ∷ [];
  job_types = ("reftest-R", record { id = 1; job_group_id = some none }) ∷ [];
  products = ("firefox", 1) ∷ [];
  machines = ("host", 1) ∷ [];
  devices = ("phone", 1) ∷ [];
  option_collections = ("opt", "opt" ∷ []) ∷ [];
}

answer_of : Result (IdLookup × RefData × Db) → Option IdLookup
answer_of (ok (found, manager, after)) = some found
answer_of (err e) = none

calls_are_answered :
    answer_of (set_all_reference_data (λ rows. rows) (run_all library calls new) db) ≡ some ids
unfolding answer_of set_all_reference_data run_all run add_build_platform add_machine_platform
    add_job_type add_product add_device add_machine add_machine_to add_platform_to add_name_to
    add_name_and_symbol_to collect add_option_collection new_options get_option_collection_hash join
    sort_texts insert_text text_leb process_platforms create_rows create_row clauses get_rows
    set_ids set_id no_ids_yet platform_key process_names by_name put_all name_of
    process_names_and_symbols put_rows no_rows_yet name_symbol_key process_job_types group_updates
    group_update lacks_group update_groups update_job_type_group_id process_machines create_machines
    update_timestamps update_machine_timestamp process_option_collections get_or_create_options
    create_options collection_rows rows_of_set create_collections has_collection create_signatures
    same has_row drop is_one_of take_text text_length lookup insert
calls_are_answered = refl

run_all-PlatformsHeld_example :
    PlatformsHeld
      (keys (run_all library calls new).build_platforms.entries)
      (process_platforms (run_all library calls new).build_platforms platforms)
    × PlatformsHeld
        (keys (run_all library calls new).machine_platforms.entries)
        (process_platforms (run_all library calls new).machine_platforms none_yet)
run_all-PlatformsHeld_example = run_all-PlatformsHeld library calls platforms none_yet (refl, tt) tt

set_all_reference_data-IdsHeld_example :
    Holds
      (IdsHeld (run_all library calls new))
      (set_all_reference_data (λ rows. rows) (run_all library calls new) db)
set_all_reference_data-IdsHeld_example =
    set_all_reference_data-IdsHeld library calls db (refl, tt) tt tt tt tt

process_names-again_example :
    (process_names
      (λ rows. rows)
      (run_all library calls new).products
      (process_names (λ rows. []) (run_all library calls new).products none_yet).1).1
    ≡ (process_names (λ rows. []) (run_all library calls new).products none_yet).1
process_names-again_example = process_names-again library calls (λ rows. []) (λ rows. rows) none_yet
