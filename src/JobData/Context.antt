-- ===== src/JobData/Context.antt =====
-- The context of nested data, in `JobData` of treeherder/model/derived/jobs.py.
use Prim.{Unit, tt}
use treeherder_service.Prelude.{
  String, ◌≡◌, refl, sym, Option, none, some, List, [], ◌∷◌, ◌++◌, append_assoc, append-nil,
}
use treeherder_service.Json.{
  Json, Fields, null, bool, num, str, arr, obj, ok, err, job_data_error, find_field, Holds,
  Holds-then, Holds-ok,
}
use treeherder_service.JobData.{
  JobData, Value, nested, plain, missing, found, getitem, getitem_of, walk,
}

-- a nested dictionary that was found under the keys
abbrev pub IsUnder : List String → Value → Type 0
IsUnder keys (nested e) = e.context ≡ keys
IsUnder keys (plain v) = Unit

found-IsUnder : (keys : List String) (o : Option Json) → Holds (IsUnder keys) (found keys o)
found-IsUnder keys none = tt
found-IsUnder keys (some (obj fs)) = refl
found-IsUnder keys (some null) = tt
found-IsUnder keys (some (bool b)) = tt
found-IsUnder keys (some (num n)) = tt
found-IsUnder keys (some (str s)) = tt
found-IsUnder keys (some (arr vs)) = tt

getitem-IsUnder :
    (name : String) (keys : List String) (v : Value)
    → IsUnder keys v
    → Holds (IsUnder (keys ++ name ∷ [])) (getitem_of name v)
unfolding getitem
getitem-IsUnder name keys (nested d) h =
    rw h (found-IsUnder (keys ++ name ∷ []) (find_field name d.data_))
getitem-IsUnder name keys (plain v) h = tt

walk-IsUnder :
    (path keys : List String) (v : Value)
    → IsUnder keys v
    → Holds (IsUnder (keys ++ path)) (walk path v)
unfolding walk
walk-IsUnder [] keys v h = rw (append-nil keys) h
walk-IsUnder (k ∷ path) keys v h =
    Holds-then (IsUnder (keys ++ k ∷ [])) (IsUnder (keys ++ k ∷ path)) (getitem_of k v) _
      (getitem-IsUnder k keys v h)
      (λ w u. rw (sym (append_assoc keys (k ∷ []) path)) (walk-IsUnder path (keys ++ k ∷ []) w u))

-- Where some keys lead from the parsed data to a dictionary without a name, the access to the name
-- raises a JobDataError that lists all the keys, and the name behind them.
pub getitem-missing :
    (path : List String) (fs : Fields) (e : JobData) (name : String)
    → walk path (nested (record { context = []; data_ = fs })) ≡ ok (nested e)
    → find_field name e.data_ ≡ none
    → getitem name e ≡ err (job_data_error (missing (path ++ name ∷ [])))
unfolding getitem
getitem-missing path fs e name h m =
    let under =
      Holds-ok (IsUnder path) _ (nested e) h
        (walk-IsUnder path [] (nested (record { context = []; data_ = fs })) refl) in
    rw (under, m) refl
