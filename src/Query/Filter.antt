-- ===== src/Query/Filter.antt =====
-- What `UrlQueryFilter` makes of its parameters, and what `get` and `pop` do to the filter.
use treeherder_service.Prelude.{
  String, ◌≡◌, refl, ap, ◌∙◌, false, Option, none, some, [], ◌∷◌, arith, str_eq, eq_iff, eq_refl,
  if◌then◌else◌, lookup, insert, lookup-insert, string_eq,
}
use treeherder_service.Json.{ok}
use treeherder_service.Query.{
  Value, Condition, Conditions, plain, set, answer_of, get_set, get, delete, pop,
}

lookup-delete :
    (key other : String) (conditions : Conditions)
    → lookup other (delete key conditions)
      ≡ (if str_eq key other then none else lookup other conditions)
unfolding lookup delete
lookup-delete key other [] = ground arith
lookup-delete key other ((k, v) ∷ rest) =
    ground (arith, lookup-delete key other rest, eq_iff k key, eq_iff k other, eq_iff key other)

get_one :
    (key : String) (d : Option String) (c : Condition) (conditions : Conditions)
    → lookup key conditions ≡ some (c ∷ [])
    → get key d conditions ≡ (ok (answer_of c), insert key [] conditions)
unfolding get get_set
get_one key d c conditions h = rw (h, get) refl

get_empty :
    (key : String) (d : Option String) (conditions : Conditions)
    → lookup key conditions ≡ some []
    → get key d conditions ≡ (ok (set []), conditions)
unfolding get get_set
get_empty key d conditions h = rw (h, get) refl

-- A second `get` of a key with one condition answers with an empty set: the first one took the
-- condition out of the filter.
get-get :
    (key : String) (d : Option String) (c : Condition) (conditions : Conditions)
    → lookup key conditions ≡ some (c ∷ [])
    → ((get key d conditions).0 ≡ ok (answer_of c))
      × ((get key d (get key d conditions).1).0 ≡ ok (set []))
get-get key d c conditions h =
    let first = get_one key d c conditions h in
    (
      ap (λ r. r.0) first,
      rw first (
          ap (λ r. r.0)
            (get_empty key d (insert key [] conditions)
              (lookup-insert key key [] conditions ∙ rw (eq_refl key) refl))),
    )

-- `pop` answers with the plain value of an equality, takes the key out of the filter, and leaves
-- every other key as it is.
pop_lem :
    (key : String) (d : Option String) (v : Value) (conditions : Conditions)
    → lookup key conditions ≡ some (("=", v) ∷ [])
    → ((pop key d conditions).0 ≡ ok (plain v))
      × (lookup key (pop key d conditions).1 ≡ none)
      × ((other : String)
          → str_eq key other ≡ false
          → lookup other (pop key d conditions).1 ≡ lookup other conditions)
unfolding pop
pop_lem key d v conditions h =
    let first = get_one key none ("=", v) conditions h in
    rw (first, pop)
      (
        refl,
        lookup-delete key key (insert key [] conditions) ∙ rw (eq_refl key) refl,
        λ other ne.
            lookup-delete key other (insert key [] conditions)
            ∙ rw ne (lookup-insert key other [] conditions ∙ rw ne refl),
      )
