-- ===== src/JobData.antt =====
-- `JobData` of treeherder/model/derived/jobs.py: a dictionary that knows under which keys it was
-- found, so that the error for a missing key names all of them.
pub mod Context
use Prim.Native.String.{◌++◌ as append}
use treeherder_service.Prelude.{String, Option, none, some, List, [], ◌∷◌, ◌++◌}
use treeherder_service.Json.{
  Json, Fields, obj, Result, ok, err, ◌>>=◌, job_data_error, type_error, find_field,
}

pub record JobData : Type 0 where
  pub context : List String
  pub data_ : Fields

-- what an access gives: another `JobData`, or a value that is no dictionary
pub data Value : Type 0 where
  nested : JobData → Value
  plain : Json → Value

-- `"".join(["['{0}']".format(c) for c in full_context])`
unfoldable pub keys_text : List String → String
keys_text [] = ""
keys_text (c ∷ cs) = append "['" (append c (append "']" (keys_text cs)))

abbrev pub missing : List String → String
missing context = append "Missing data: " (append (keys_text context) ".")

-- a nested dictionary gets the context with it
abbrev pub wrap : List String → Json → Value
wrap context (obj fs) = nested (record { context = context; data_ = fs })
wrap context v = plain v

abbrev pub found : List String → Option Json → Result Value
found context none = err (job_data_error (missing context))
found context (some v) = ok (wrap context v)

-- `d[name]`
unfoldable pub getitem : String → JobData → Result Value
unfolding find_field
getitem name d = found (d.context ++ name ∷ []) (find_field name d.data_)

-- an access on what an access gave: a value that is no dictionary has no text keys
abbrev pub getitem_of : String → Value → Result Value
getitem_of name (nested d) = getitem name d
getitem_of name (plain v) = err type_error

-- `d[k1][k2]...`
unfoldable pub walk : List String → Value → Result Value
unfolding getitem
walk [] v = ok v
walk (k ∷ ks) v = getitem_of k v >>= λ w. walk ks w
