-- ===== src/RefData/Process.antt =====
-- The process methods of `RefDataManager` in treeherder/model/derived/refdata.py: what was collected
-- is written, and the ids are read back.
use treeherder_service.Prelude.{
  ℕ, String, Bool, true, ◌==◌, Option, none, some, List, [], ◌∷◌, ◌++◌, map, if◌then◌else◌, lookup,
  insert, string_eq,
}
use treeherder_service.Json.{Result, ok, err, key_error, ◌>>=◌}
use treeherder_service.RefData.{
  Collected, Machines, Group, has_key, get_platform_key, get_name_symbol_key,
}
use treeherder_service.RefData.Tables.{
  Row, Table, create_row, create_rows, clauses, get_rows, update_machine_timestamp,
  update_job_type_group_id,
}

abbrev pub or_key_error {ℓ} : {A : Type ℓ} → String → Option A → Result A
or_key_error k none = err (key_error k)
or_key_error k (some v) = ok v

-- `lookup[key]['id'] = id`, which wants an entry
unfoldable pub set_id : String → ℕ → List (String × ℕ) → Result (List (String × ℕ))
set_id key id ids = if has_key key ids then ok (insert key id ids) else err (key_error key)

-- the key of a row of a platform
unfoldable pub platform_key : List String → String
platform_key (os_name ∷ platform ∷ architecture ∷ rest) =
    get_platform_key os_name platform architecture
platform_key _ = ""

unfoldable pub set_ids : List Row → List (String × ℕ) → Result (List (String × ℕ))
unfolding set_id platform_key
set_ids [] ids = ok ids
set_ids (r ∷ rs) ids = set_id (platform_key r.columns) r.id ids >>= set_ids rs

-- the entries as they were collected, with the id 0
unfoldable pub no_ids_yet : List (String × List String) → List (String × ℕ)
no_ids_yet [] = []
no_ids_yet ((k, fields) ∷ entries) = (k, 0) ∷ no_ids_yet entries

-- _process_platforms: the lookup and the table
unfoldable pub process_platforms : Collected → Table → Result (List (String × ℕ) × Table)
unfolding create_rows clauses get_rows set_ids no_ids_yet
process_platforms c t =
    let written = create_rows 3 c.placeholders t in
    elim c.where_filters [
      | [] ↦ ok (no_ids_yet c.entries, t)
      | filter ∷ filters ↦ do
        ids ←
            set_ids (get_rows (clauses 3 (filter ∷ filters) c.unique) written.rows)
              (no_ids_yet c.entries)
        ok (ids, written)
    ]

-- `return_type='dict'`, `key_column='name'`
unfoldable pub name_of : List String → String
name_of (name ∷ rest) = name
name_of [] = ""

-- a dictionary of the rows by their keys, the last row of a key, on top of the given entries
unfoldable pub put_all {ℓ} :
    {V : Type ℓ}
    → (List String → String)
    → (Row → V)
    → List Row
    → List (String × V)
    → List (String × V)
put_all key value [] d = d
put_all key value (r ∷ rs) d = put_all key value rs (insert (key r.columns) (value r) d)

abbrev pub id_of : Row → ℕ
id_of r = r.id

unfoldable pub by_name : List Row → List (String × ℕ) → List (String × ℕ)
unfolding put_all name_of
by_name = put_all name_of id_of

-- The ids of names are read from `read_host`, and so perhaps from a table that lags behind.
abbrev pub ReadHost : Type 0
ReadHost = List Row → List Row

-- _process_names
unfoldable pub process_names : ReadHost → Collected → Table → List (String × ℕ) × Table
unfolding create_rows clauses get_rows by_name
process_names read c t =
    let written = create_rows 1 c.placeholders t in
    elim c.placeholders [
      | [] ↦ ([], t)
      | p ∷ ps ↦
          (by_name (get_rows (clauses 1 c.where_filters c.unique) (read written.rows)) [], written)
    ]

-- an entry of the lookup of names and symbols: the id, 0 at first, and the group's id, which is there
-- once a row was read
pub record Entry : Type 0 where
  pub id : ℕ
  pub job_group_id : Option (Option ℕ)

unfoldable pub name_symbol_key : List String → String
name_symbol_key (name ∷ symbol ∷ rest) = get_name_symbol_key name symbol
name_symbol_key _ = ""

abbrev pub entry_of : Row → Entry
entry_of r = record { id = r.id; job_group_id = some r.job_group_id }

unfoldable pub put_rows : List Row → List (String × Entry) → List (String × Entry)
unfolding put_all name_symbol_key
put_rows = put_all name_symbol_key entry_of

unfoldable pub no_rows_yet : List (String × List String) → List (String × Entry)
no_rows_yet [] = []
no_rows_yet ((k, fields) ∷ entries) =
    (k, record { id = 0; job_group_id = none }) ∷ no_rows_yet entries

-- _process_names_and_symbols
unfoldable pub process_names_and_symbols : Collected → Table → List (String × Entry) × Table
unfolding create_rows clauses get_rows put_rows no_rows_yet
process_names_and_symbols c t =
    let written = create_rows 2 c.placeholders t in
    elim c.where_filters [
      | [] ↦ (no_rows_yet c.entries, t)
      | filter ∷ filters ↦ (
        put_rows (get_rows (clauses 2 (filter ∷ filters) c.unique) written.rows)
            (no_rows_yet c.entries),
        written,
      )
    ]

-- `not lookup[key]['job_group_id']`
unfoldable pub lacks_group : String → Option (Option ℕ) → Result Bool
lacks_group key none = err (key_error "job_group_id")
lacks_group key (some none) = ok true
lacks_group key (some (some id)) = ok (id == 0)

-- the placeholders of the job types that have no group id
unfoldable pub group_update :
    List (String × Group) → List (String × Entry) → String → Result (ℕ × String × String)
group_update groups job_groups key = do
  g ← or_key_error key (lookup key groups)
  e ← or_key_error g.group_key (lookup g.group_key job_groups)
  ok (e.id, g.job_type, g.job_symbol)

unfoldable pub group_updates :
    List (String × Group)
    → List (String × Entry)
    → List (String × Entry)
    → Result (List (ℕ × String × String))
unfolding lacks_group group_update
group_updates groups job_groups [] = ok []
group_updates groups job_groups ((key, e) ∷ es) = do
  lacking ← lacks_group key e.job_group_id
  us ← if lacking then (group_update groups job_groups key >>= λ u. ok (u ∷ [])) else ok []
  rest ← group_updates groups job_groups es
  ok (us ++ rest)

unfoldable pub update_groups : List (ℕ × String × String) → List Row → List Row
unfolding update_job_type_group_id
update_groups [] rows = rows
update_groups ((group, name, symbol) ∷ us) rows =
    update_groups us (map (update_job_type_group_id group name symbol) rows)

-- process_job_types, behind process_job_groups
unfoldable pub process_job_types :
    List (String × Group)
    → List (String × Entry)
    → Collected
    → Table
    → Result (List (String × Entry) × Table)
unfolding process_names_and_symbols group_updates update_groups
process_job_types groups job_groups c t =
    let (found, written) = process_names_and_symbols c t in
    do
      us ← group_updates groups job_groups found
      ok (found, record written { rows = update_groups us written.rows })

unfoldable pub create_machines : List (String × ℕ × ℕ × String) → Table → Table
unfolding create_row
create_machines [] t = t
create_machines ((name, first, last, test) ∷ ps) t =
    create_machines ps (create_row 1 (some last) (name ∷ test ∷ []) t)

unfoldable pub update_timestamps : List (ℕ × String) → List Row → List Row
unfolding update_machine_timestamp
update_timestamps [] rows = rows
update_timestamps ((time, name) ∷ us) rows =
    update_timestamps us (map (update_machine_timestamp time name) rows)

unfoldable pub process_machines : ReadHost → Machines → Table → List (String × ℕ) × Table
unfolding create_machines clauses get_rows by_name update_timestamps
process_machines read m t =
    let written = create_machines m.placeholders t in
    elim m.placeholders [
      | [] ↦ ([], t)
      | p ∷ ps ↦ (
        by_name (get_rows (clauses 1 m.where_in m.unique) (read written.rows)) [],
        record written { rows = update_timestamps m.updates written.rows },
      )
    ]
