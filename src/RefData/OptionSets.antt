-- ===== src/RefData/OptionSets.antt =====
-- The sets of options and the signatures that `RefDataManager` of
-- treeherder/model/derived/refdata.py collects.
use Prim.Native.Char.{code}
use Prim.Native.String.{◌++◌ as append, [] as empty_text, ◌∷◌ as char_cons}
use treeherder_service.Prelude.{
  String, Bool, true, false, ◌&&◌, ◌||◌, Option, none, some, List, [], ◌∷◌, ◌++◌, map, ◌==◌, ltb,
  if◌then◌else◌, contains, insert, string_eq,
}
use treeherder_service.RefData.{Library, RefData, has_key}

-- `set(option_set) - self.o_lookup`
unfoldable pub new_options : List String → List String → List String
new_options [] known = []
new_options (o ∷ os) known =
    if contains o known then new_options os known else o ∷ new_options os (o ∷ known)

-- the order of Python's texts
unfoldable pub text_leb : String → String → Bool
text_leb empty_text t = true
text_leb (char_cons c s) empty_text = false
text_leb (char_cons c s) (char_cons d t) =
    let rest = text_leb s t in ltb (code c) (code d) || code c == code d && rest

unfoldable pub insert_text : String → List String → List String
insert_text s [] = s ∷ []
insert_text s (t ∷ ts) = if text_leb s t then s ∷ t ∷ ts else t ∷ insert_text s ts

unfoldable pub sort_texts : List String → List String
unfolding insert_text
sort_texts [] = []
sort_texts (s ∷ ss) = insert_text s (sort_texts ss)

-- `"".join(ss)`
unfoldable pub join : List String → String
join [] = ""
join (s ∷ ss) = append s (join ss)

unfoldable pub get_option_collection_hash : Library → List String → String
unfolding join sort_texts
get_option_collection_hash l options = l.sha1_hex (join (sort_texts options))

unfoldable pub add_option_collection : Library → List String → RefData → String × RefData
unfolding new_options
add_option_collection l option_set r =
    let o = r.options in
    let added = new_options option_set o.known in
    let hash = get_option_collection_hash l option_set in
    (
      hash,
      record r {
        options = record {
          known = o.known ++ added;
          placeholders = o.placeholders ++ map (λ n. (n, n)) added;
          unique = o.unique ++ added;
          where_in = o.where_in ++ map (λ n. "%s") added;
          collections =
              if has_key hash o.collections
              then o.collections
              else insert hash option_set o.collections;
        };
      },
    )

unfoldable pub get_reference_data_signature : Library → List String → String
unfolding join
get_reference_data_signature l properties = l.sha1_hex (join properties)

abbrev pub or_name : String → Option String → String
or_name s none = s
or_name s (some name) = name

unfoldable pub add_reference_data_signature :
    Library → Option String → String → String → List String → RefData → String × RefData
add_reference_data_signature l name build_system_type repository properties r =
    let signature = get_reference_data_signature l properties in
    (
      signature,
      if has_key signature r.signatures then r else record r {
        signatures = r.signatures ++ (signature, properties) ∷ [];
        signature_placeholders =
            r.signature_placeholders
            ++ record {
              name = or_name signature name;
              signature = signature;
              properties = properties;
              first_submission = l.now;
              build_system_type = build_system_type;
              repository = repository;
            }
              ∷ [];
      },
    )
