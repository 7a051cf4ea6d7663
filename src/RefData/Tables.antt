-- ===== src/RefData/Tables.antt =====
-- The tables of reference data, with the statements of treeherder/model/sql/reference.json that
-- refdata.py runs on them. Texts are compared exactly.
use treeherder_service.Prelude.{
  ℕ, zero, suc, ◌+◌, String, Bool, true, false, ◌&&◌, ◌||◌, Option, none, some, List, [], ◌∷◌, ◌++◌,
  if◌then◌else◌, str_eq, keep, take,
}

-- A row by its id and by the columns that name it. Only job types have a group, and only machines
-- the time of the last report; that of the first is left out.
pub record Row : Type 0 where
  pub id : ℕ
  pub columns : List String
  pub active : Bool
  pub job_group_id : Option ℕ
  pub last_timestamp : Option ℕ

pub record Table : Type 0 where
  pub rows : List Row
  pub next_id : ℕ

-- the equality of columns
unfoldable pub same : List String → List String → Bool
same [] [] = true
same [] (d ∷ ds) = false
same (c ∷ cs) [] = false
same (c ∷ cs) (d ∷ ds) = str_eq c d && same cs ds

unfoldable pub has_row : List String → List Row → Bool
unfolding same
has_row columns [] = false
has_row columns (r ∷ rs) = same r.columns columns || has_row columns rs

unfoldable pub drop : ℕ → List String → List String
drop zero xs = xs
drop (suc n) [] = []
drop (suc n) (x ∷ xs) = drop n xs

-- INSERT … SELECT … WHERE NOT EXISTS: the first n placeholders are the columns, the others those of
-- the test
unfoldable pub create_row : ℕ → Option ℕ → List String → Table → Table
unfolding has_row drop
create_row n time placeholders t = if has_row (drop n placeholders) t.rows then t else record {
  rows =
      t.rows
      ++ (record {
        id = t.next_id;
        columns = take n placeholders;
        active = true;
        job_group_id = none;
        last_timestamp = time;
      })
        ∷ [];
  next_id = t.next_id + 1;
}

-- executemany
unfoldable pub create_rows : ℕ → List (List String) → Table → Table
unfolding create_row
create_rows n [] t = t
create_rows n (p ∷ ps) t = create_rows n ps (create_row n none p t)

-- the placeholders of the query, n for each clause
unfoldable pub clauses : ℕ → List String → List String → List (List String)
unfolding drop
clauses n [] texts = []
clauses n (filter ∷ filters) texts = take n texts ∷ clauses n filters (drop n texts)

unfoldable pub is_one_of : List String → List (List String) → Bool
unfolding same
is_one_of columns [] = false
is_one_of columns (c ∷ cs) = same columns c || is_one_of columns cs

-- SELECT … WHERE `active_status` = 'active' AND (…)
unfoldable pub get_rows : List (List String) → List Row → List Row
unfolding is_one_of
get_rows asked = keep (λ r. r.active && is_one_of r.columns asked)

-- UPDATE `machine`
unfoldable pub update_machine_timestamp : ℕ → String → Row → Row
unfolding same
update_machine_timestamp time name r =
    if same r.columns (name ∷ []) then record r { last_timestamp = some time } else r

-- UPDATE `job_type`
unfoldable pub update_job_type_group_id : ℕ → String → String → Row → Row
unfolding same
update_job_type_group_id group name symbol r =
    if same r.columns (name ∷ symbol ∷ []) then record r { job_group_id = some group } else r
