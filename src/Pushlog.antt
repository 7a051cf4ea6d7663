-- ===== src/Pushlog.antt =====
-- treeherder/etl/pushlog.py: the pushes of a repository as result sets, with generate_revision_hash
-- and get_not_found_onhold_push of treeherder/etl/common.py and the load of OAuthLoaderMixin in
-- treeherder/etl/mixins.py. The fields of the push log that the code takes are those of the records.
pub mod Progress
pub mod Missing
pub mod OnHold
pub mod Transformed
use Prim.Native.String.{◌++◌ as append}
use treeherder_service.Prelude.{
  ℕ, zero, max, String, Bool, true, false, not, Option, none, some, List, [], ◌∷◌, ◌++◌, ◌⊎◌, inl,
  inr, ◌==◌, if◌then◌else◌, str_eq, take_text, lookup, insert, string_eq,
}
use treeherder_service.Json.{
  PyError, Result, ok, err, key_error, index_error, attribute_error, ◌>>=◌,
}
use treeherder_service.Guid.{Printing}

pub record Changeset : Type 0 where
  pub node : String
  pub files : List String
  pub author : String
  pub branch : String
  pub desc : String

pub record Push : Type 0 where
  pub date : ℕ
  pub user : String
  pub active_status : Option String
  pub changesets : List Changeset

-- the dictionary of pushes, by their ids
abbrev pub Content : Type 0
Content = List (String × Push)

pub record RevisionData : Type 0 where
  pub revision : String
  pub files : List String
  pub author : String
  pub branch : String
  pub comment : String
  pub repository : String

pub record ResultSetData : Type 0 where
  pub push_timestamp : ℕ
  pub revisions : List RevisionData
  pub author : String
  pub active_status : String
  pub revision_hash : String

-- a TreeherderResultSetCollection for each project, by the data that were added to it
abbrev pub Collections : Type 0
Collections = List (String × List ResultSetData)

-- hashing, `str` and `int`
pub record Env : Type 0 where
  pub printing : Printing
  pub int : String → Result ℕ

unfoldable pub join : List String → String
join [] = ""
join (s ∷ ss) = append s (join ss)

unfoldable pub generate_revision_hash : Printing → List String → String
unfolding join
generate_revision_hash p revisions = p.sha1_hex (join revisions)

unfoldable pub revision_of : String → Changeset → RevisionData
revision_of repository change = record {
  revision = take_text 12 change.node;
  files = change.files;
  author = change.author;
  branch = change.branch;
  comment = change.desc;
  repository = repository;
}

-- the loop over the changesets: the components of the hash and the revisions
unfoldable pub add_changes :
    String → List Changeset → List String → List RevisionData → List String × List RevisionData
unfolding revision_of
add_changes repository [] components revisions = (components, revisions)
add_changes repository (change ∷ changes) components revisions =
    add_changes repository changes (components ++ change.node ∷ change.branch ∷ [])
      (revisions ++ revision_of repository change ∷ [])

abbrev pub or_active : Option String → String
or_active none = "active"
or_active (some status) = status

unfoldable pub result_set : Env → String → Push → ResultSetData
unfolding add_changes generate_revision_hash
result_set env repository push =
    let (components, revisions) = add_changes repository push.changesets [] [] in
    record {
      push_timestamp = push.date;
      revisions = revisions;
      author = push.user;
      active_status = or_active push.active_status;
      revision_hash = generate_revision_hash env.printing components;
    }

abbrev pub collection : Option (List ResultSetData) → List ResultSetData
collection none = []
collection (some result_sets) = result_sets

-- HgPushlogTransformerMixin.transform, from the collections that are there
unfoldable pub transform : Env → String → Content → Collections → Collections
unfolding result_set
transform env repository [] th_collections = th_collections
transform env repository ((id, push) ∷ pushlog) th_collections = transform env repository pushlog (
    insert repository
      (collection (lookup repository th_collections) ++ result_set env repository push ∷ [])
      th_collections)

pub data Failure : Type 0 where
  http_error : ℕ → Failure
  error : PyError → Failure

-- what a request to the web service gives: an answer with its status, or None
pub data Response : Type 0 where
  status : ℕ → Response
  no_response : Response
  broken : Failure → Response

-- the push log from the beginning or from a change, and the posting of a collection, for which
-- the credentials of the project are read
pub record Service : Type 0 where
  pub extract : Option String → Failure ⊎ Content
  pub post : String → List ResultSetData → Response

-- the cached last push of the repository, and what was posted
pub record World : Type 0 where
  pub last_push : Option String
  pub posted : Collections

-- OAuthLoaderMixin.load: a status other than 200 is only logged, and None has no `read`
unfoldable pub after_post : Response → Option Failure
after_post (status n) = none
after_post no_response = some (error attribute_error)
after_post (broken f) = some f

abbrev pub or_next : Option Failure × World → Option Failure × World → Option Failure × World
or_next (none, w) next = next
or_next (some f, w) next = (some f, w)

unfoldable pub load : Service → Collections → World → Option Failure × World
unfolding after_post
load s [] w = (none, w)
load s ((project, result_sets) ∷ th_collections) w =
    let sent = record w { posted = w.posted ++ (project, result_sets) ∷ [] } in
    or_next (after_post (s.post project result_sets), sent) (load s th_collections sent)

-- HgPushlogProcess.run: a 404 drops the cached push
unfoldable pub on_cached : Service → Failure ⊎ Content → World → (Failure ⊎ Content) × World
on_cached s (inr content) w = (inr content, w)
on_cached s (inl (error e)) w = (inl (error e), w)
on_cached s (inl (http_error n)) w =
    if n == 404 then (s.extract none, record w { last_push = none }) else (inl (http_error n), w)

unfoldable pub extract_from : Service → Option String → World → (Failure ⊎ Content) × World
unfolding on_cached
extract_from s none w = (s.extract none, w)
extract_from s (some last_push) w =
    if str_eq last_push "" then (s.extract none, w) else on_cached s (s.extract (some last_push)) w

-- `map(lambda x: int(x), extracted_content.keys())`
unfoldable pub push_ids : Env → Content → Result (List ℕ)
push_ids env [] = ok []
push_ids env ((id, push) ∷ content) = do n ← env.int id; ns ← push_ids env content; ok (n ∷ ns)

unfoldable pub greatest : List ℕ → ℕ
greatest [] = zero
greatest (n ∷ ns) = max n (greatest ns)

abbrev pub or_key_error : String → Option Push → Result Push
or_key_error k none = err (key_error k)
or_key_error k (some push) = ok push

abbrev pub first_node : List Changeset → Result String
first_node [] = err index_error
first_node (change ∷ changes) = ok change.node

unfoldable pub top_revision : Env → Content → Result String
unfolding push_ids greatest
top_revision env content = do
  ids ← push_ids env content
  let last_push_id = env.printing.str (greatest ids)
  push ← or_key_error last_push_id (lookup last_push_id content)
  first_node push.changesets

abbrev pub on_loaded : String → Option Failure × World → Option Failure × World
on_loaded top (some f, w) = (some f, w)
on_loaded top (none, w) = (none, record w { last_push = some top })

unfoldable pub on_top :
    Service → Env → String → Content → Result String → World → Option Failure × World
unfolding load transform
on_top s env repository content (err e) w = (some (error e), w)
on_top s env repository content (ok top) w =
    on_loaded top (load s (transform env repository content []) w)

unfoldable pub on_extracted :
    Service → Env → String → (Failure ⊎ Content) × World → Option Failure × World
unfolding on_top top_revision
on_extracted s env repository (inl f, w) = (some f, w)
on_extracted s env repository (inr [], w) = (none, w)
on_extracted s env repository (inr (p ∷ content), w) =
    on_top s env repository (p ∷ content) (top_revision env (p ∷ content)) w

unfoldable pub run : Service → Env → String → World → Option Failure × World
unfolding on_extracted extract_from
run s env repository w = on_extracted s env repository (extract_from s w.last_push w)
