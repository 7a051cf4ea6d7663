-- ===== src/Json.antt =====
-- The values that `json.loads` gives, Python's errors as results, and how the code reads a
-- dictionary: `d[k]`, `d.get(k, default)`. Numbers are the natural numbers: the fields that the
-- code computes with are identifiers, counts and timestamps.
use Prim.{Unit, tt}
use treeherder_service.Prelude.{
  subst, ◌⊎◌, inl, inr, ℕ, String, ◌≡◌, refl, Bool, true, false, Option, none, some, List, [], ◌∷◌,
  str_eq, if◌then◌else◌,
}

pub data PyError : Type 0 where
  key_error : String → PyError
  type_error value_error attribute_error index_error unbound_local_error : PyError
  integrity_error job_data_integrity_error assertion_error url_error : PyError
  job_data_error : String → PyError

pub data Result {ℓ} (A : Type ℓ) : Type ℓ where
  ok : A → Result A
  err : PyError → Result A

pub Result-cases {ℓ} :
    {A : Type ℓ} (r : Result A) → ((a : A) × (r ≡ ok a)) ⊎ ((e : PyError) × (r ≡ err e))
Result-cases (ok a) = inl (a, refl)
Result-cases (err e) = inr (e, refl)

infixl 5 ◌>>=◌ ◌>>◌
abbrev pub ◌>>=◌ {ℓ κ} : {A : Type ℓ} {B : Type κ} → Result A → (A → Result B) → Result B
ok a >>= f = f a
err e >>= f = err e

abbrev pub ◌>>◌ {ℓ κ} : {A : Type ℓ} {B : Type κ} → Result A → Result B → Result B
m >> k = m >>= λ _. k

-- what an answer is to be, where it is no error
abbrev pub Holds {ℓ} : {A : Type ℓ} → (A → Type 0) → Result A → Type 0
Holds P (ok a) = P a
Holds P (err e) = Unit

pub Holds-bind {ℓ κ} :
    {A : Type ℓ} {B : Type κ} (P : B → Type 0) (m : Result A) (f : A → Result B)
    → ((a : A) → Holds P (f a))
    → Holds P (m >>= f)
Holds-bind P (ok a) f h = h a
Holds-bind P (err e) f h = tt

pub Holds-then {ℓ κ} :
    {A : Type ℓ} {B : Type κ} (Q : A → Type 0) (P : B → Type 0) (m : Result A) (f : A → Result B)
    → Holds Q m
    → ((a : A) → Q a → Holds P (f a))
    → Holds P (m >>= f)
Holds-then Q P (ok a) f q h = h a q
Holds-then Q P (err e) f q h = tt

pub Holds-eq {ℓ κ} :
    {A : Type ℓ} {B : Type κ} (P : B → Type 0) (m : Result A) (f : A → Result B)
    → ((a : A) → m ≡ ok a → Holds P (f a))
    → Holds P (m >>= f)
Holds-eq P (ok a) f h = h a refl
Holds-eq P (err e) f h = tt

pub Holds-map {ℓ} :
    {A : Type ℓ} (Q P : A → Type 0) (m : Result A) → ((a : A) → Q a → P a) → Holds Q m → Holds P m
Holds-map Q P (ok a) f q = f a q
Holds-map Q P (err e) f q = tt

pub Holds-if {ℓ} :
    {A : Type ℓ} (P : A → Type 0) (b : Bool) (m n : Result A)
    → Holds P m
    → Holds P n
    → Holds P (if b then m else n)
Holds-if P true m n h k = h
Holds-if P false m n h k = k

pub Holds-ok {ℓ} : {A : Type ℓ} (P : A → Type 0) (m : Result A) (a : A) → m ≡ ok a → Holds P m → P a
Holds-ok P m a e h = subst (Holds P) e h

-- an answer without an error, and what it is
abbrev pub Returns {ℓ} : {A : Type ℓ} → (A → Type 0) → Result A → Type 0
Returns P (ok a) = P a
Returns P (err e) = ⊥

pub Returns-then {ℓ κ} :
    {A : Type ℓ} {B : Type κ} (Q : A → Type 0) (P : B → Type 0) (m : Result A) (f : A → Result B)
    → Returns Q m
    → ((a : A) → Q a → Returns P (f a))
    → Returns P (m >>= f)
Returns-then Q P (ok a) f q h = h a q
Returns-then Q P (err e) f q h = elim q [ ]

pub Returns-map {ℓ} :
    {A : Type ℓ} (Q P : A → Type 0) (m : Result A)
    → ((a : A) → Q a → P a)
    → Returns Q m
    → Returns P m
Returns-map Q P (ok a) f q = f a q
Returns-map Q P (err e) f q = q

mutual
  pub data Json : Type 0 where
    null : Json
    bool : Bool → Json
    num : ℕ → Json
    str : String → Json
    arr : Items → Json
    obj : Fields → Json

  pub data Items : Type 0 where
    nil : Items
    cons : Json → Items → Items

  pub data Fields : Type 0 where
    end : Fields
    field : String → Json → Fields → Fields

-- the dictionary's entry for a key
unfoldable pub find_field : String → Fields → Option Json
find_field k end = none
find_field k (field j v fs) = if str_eq j k then some v else find_field k fs

unfoldable pub elements : Items → List Json
elements nil = []
elements (cons v vs) = v ∷ elements vs

-- the keys, in the order in which iteration gives them
unfoldable pub field_names : Fields → List String
field_names end = []
field_names (field k v fs) = k ∷ field_names fs

abbrev or_key_error : String → Option Json → Result Json
or_key_error k none = err (key_error k)
or_key_error k (some v) = ok v

abbrev or_default : Json → Option Json → Json
or_default d none = d
or_default d (some v) = v

-- `v[k]`: only a dictionary has text keys
unfoldable pub get_item : String → Json → Result Json
unfolding find_field
get_item k (obj fs) = or_key_error k (find_field k fs)
get_item k _ = err type_error

-- `v.get(k, default)`: only a dictionary has the method
unfoldable pub get : String → Json → Json → Result Json
unfolding find_field
get k d (obj fs) = ok (or_default d (find_field k fs))
get k d _ = err attribute_error
