-- ===== src/RefData/Complete.antt =====
-- What set_all_reference_data of treeherder/model/derived/refdata.py answers for whatever was
-- collected, and a second run of it.
use treeherder_service.Prelude.{ℕ, String, ◌≡◌, refl, sym, List, [], ◌∷◌, All, subst}
use treeherder_service.Json.{Result, ok, err, Holds, Holds-bind, Holds-then}
use treeherder_service.RefData.{Collected, RefData, Library, new}
use treeherder_service.RefData.Tables.{Row, Table, create_rows}
use treeherder_service.RefData.Process.{
  id_of, entry_of, platform_key, name_of, name_symbol_key, process_platforms, process_names,
  process_names_and_symbols, process_job_types,
}
use treeherder_service.RefData.Lookups.{Add, run_all}
use treeherder_service.RefData.Linked.{Linked, linked, keys, twice, run_all-AllLinked}
use treeherder_service.RefData.Written.{IsActive, create_rows-IsWritten, create_rows-written}
use treeherder_service.RefData.Found.{
  AllHeld, process_names-AllHeld, process_names_and_symbols-AllHeld,
}
use treeherder_service.RefData.Platforms.{PlatformsHeld, process_platforms-AllHeld}
use treeherder_service.RefData.All.{
  Db, IdLookup, set_all_reference_data, process_option_collections,
}

-- Where no platform is inactive, the platforms that any calls of the add methods collected are
-- processed without an exception, and each key is answered with the id of a row of that key.
pub run_all-PlatformsHeld :
    (l : Library) (calls : List Add) (build machine : Table)
    → All IsActive build.rows
    → All IsActive machine.rows
    → PlatformsHeld
        (keys (run_all l calls new).build_platforms.entries)
        (process_platforms (run_all l calls new).build_platforms build)
      × PlatformsHeld
          (keys (run_all l calls new).machine_platforms.entries)
          (process_platforms (run_all l calls new).machine_platforms machine)
run_all-PlatformsHeld l calls build machine b m =
    let (lb, lm, ld, lp, lg, lt) = run_all-AllLinked l calls in
    (
      process_platforms-AllHeld (run_all l calls new).build_platforms build lb b,
      process_platforms-AllHeld (run_all l calls new).machine_platforms machine lm m,
    )

-- each key of what was collected is answered with the id of a row of that key
abbrev pub IdsHeld : RefData → IdLookup × RefData × Db → Type 0
IdsHeld r (ids, reset, db) =
    AllHeld platform_key id_of db.build_platforms.rows ids.build_platforms
      (keys r.build_platforms.entries)
    × AllHeld platform_key id_of db.machine_platforms.rows ids.machine_platforms
        (keys r.machine_platforms.entries)
    × AllHeld name_of id_of db.products.rows ids.products (keys r.products.entries)
    × AllHeld name_of id_of db.devices.rows ids.devices (keys r.devices.entries)
    × AllHeld name_symbol_key entry_of db.job_groups.rows ids.job_groups (keys r.job_groups.entries)
    × (reset ≡ new)

abbrev TableHeld : List String → List (String × ℕ) × Table → Type 0
TableHeld ks (ids, t) = AllHeld platform_key id_of t.rows ids ks

PlatformsHeld-Holds :
    (ks : List String) (m : Result (List (String × ℕ) × Table))
    → PlatformsHeld ks m
    → Holds (TableHeld ks) m
PlatformsHeld-Holds ks (ok (ids, t)) h = h
PlatformsHeld-Holds ks (err e) h = tt

set_all_reference_data-keeps :
    (r : RefData) (db : Db)
    → Linked platform_key 3 r.build_platforms
    → Linked platform_key 3 r.machine_platforms
    → Linked name_of 1 r.devices
    → Linked name_of 1 r.products
    → Linked name_symbol_key 2 r.job_groups
    → All IsActive db.build_platforms.rows
    → All IsActive db.machine_platforms.rows
    → All IsActive db.products.rows
    → All IsActive db.devices.rows
    → All IsActive db.job_groups.rows
    → Holds (IdsHeld r) (set_all_reference_data (λ rows. rows) r db)
unfolding set_all_reference_data
set_all_reference_data-keeps r db lb lm ld lp lg b m p d g =
    Holds-then (TableHeld (keys r.build_platforms.entries)) (IdsHeld r) _ _
      (PlatformsHeld-Holds _ _
        (process_platforms-AllHeld r.build_platforms db.build_platforms lb b))
      (λ (build, build_table) hb.
        Holds-then (TableHeld (keys r.machine_platforms.entries)) (IdsHeld r) _ _
          (PlatformsHeld-Holds _ _
            (process_platforms-AllHeld r.machine_platforms db.machine_platforms lm m))
          (λ (machine, machine_table) hm.
            let groups = process_names_and_symbols r.job_groups db.job_groups in
            let types = process_job_types r.job_type_to_group groups.0 r.job_types db.job_types in
            let options =
              process_option_collections (λ rows. rows) r.options db.options
                db.option_collections in
            Holds-bind (IdsHeld r) types _ (λ typed. Holds-bind (IdsHeld r) options _ (λ collected.
              (
                hb,
                hm,
                process_names-AllHeld r.products db.products lp p,
                process_names-AllHeld r.devices db.devices ld d,
                process_names_and_symbols-AllHeld r.job_groups db.job_groups lg g,
                refl,
              )))))

-- Where no row is inactive and the host that is read does not lag, whatever any calls of the add
-- methods collected of platforms, products, devices and job groups is answered, unless a job type or
-- an option raises, with the id of a row of its key, and the manager is as new.
pub set_all_reference_data-IdsHeld :
    (l : Library) (calls : List Add) (db : Db)
    → All IsActive db.build_platforms.rows
    → All IsActive db.machine_platforms.rows
    → All IsActive db.products.rows
    → All IsActive db.devices.rows
    → All IsActive db.job_groups.rows
    → Holds
        (IdsHeld (run_all l calls new))
        (set_all_reference_data (λ rows. rows) (run_all l calls new) db)
set_all_reference_data-IdsHeld l calls db =
    let (lb, lm, ld, lp, lg, lt) = run_all-AllLinked l calls in
    set_all_reference_data-keeps (run_all l calls new) db lb lm ld lp lg

process_names-Linked :
    (read read2 : List Row → List Row) (c : Collected) (t : Table)
    → Linked name_of 1 c
    → (process_names read2 c (process_names read c t).1).1 ≡ (process_names read c t).1
unfolding process_names
process_names-Linked read read2 c t (linked css entries filters [] us k p u f w) = refl
process_names-Linked read read2 c t (linked css entries filters (q ∷ ps) us k p u f w) =
    subst (λ x. create_rows 1 x (create_rows 1 x t) ≡ create_rows 1 x t) (sym p)
      (create_rows-written 1 css (create_rows 1 (twice css) t) w (create_rows-IsWritten 1 css t w))

-- The products that any calls collected are inserted once: a second run of the processing, whatever
-- the host answered that is read, leaves the table as the first one did.
pub process_names-again :
    (l : Library) (calls : List Add) (read read2 : List Row → List Row) (t : Table)
    → (process_names read2
        (run_all l calls new).products
        (process_names read (run_all l calls new).products t).1).1
      ≡ (process_names read (run_all l calls new).products t).1
process_names-again l calls read read2 t =
    let (lb, lm, ld, lp, lg, lt) = run_all-AllLinked l calls in
    process_names-Linked read read2 (run_all l calls new).products t lp
