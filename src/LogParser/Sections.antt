-- ===== src/LogParser/Sections.antt =====
-- What the steps of a log are, independently of the parser that walks it: closed sections with the
-- errors of the lines between their first and last lines.
use treeherder_service.Prelude.{
  ℕ, suc, ◌+◌, ◌≤◌, ◌<◌, String, ◌≡◌, refl, ap, Bool, true, false, ◌&&◌, some, List, [], ◌∷◌, ◌++◌,
  if◌then◌else◌, ltb, length, get_elem?, arith, append_assoc, append-nil,
}
use treeherder_service.LogParser.{Env}
use treeherder_service.LogParser.Errors.{ErrorLine, is_error, error_line}
use treeherder_service.LogParser.Steps.{Step, Finish, put_at}

-- the errors of the lines strictly between two line numbers, where the first line has the number n
unfoldable pub errors_between : Env → ℕ → ℕ → ℕ → List String → List ErrorLine
errors_between env a b n [] = []
errors_between env a b n (l ∷ ls) =
    (if ltb a n && ltb n b && is_error env l then error_line n l ∷ [] else [])
    ++ errors_between env a b (suc n) ls

abbrev pub section_errors : Env → Bool → List String → ℕ → ℕ → List ErrorLine
section_errors env check_errors log a b = if check_errors then errors_between env a b 0 log else []

unfoldable pub errors_of_steps : List Step → List ErrorLine
errors_of_steps [] = []
errors_of_steps (s ∷ ss) = s.errors ++ errors_of_steps ss

-- steps that are numbered from n, each of which ended, in front of the line hi and none before the
-- line lo
abbrev pub Closed : Env → Bool → List String → ℕ → ℕ → List Step → ℕ → Type 0
Closed env c log n lo [] hi = lo ≤ hi
Closed env c log n lo (s ∷ ss) hi =
    (f : Finish) × (s.finish ≡ some f)
    × (s.order ≡ n)
    × (lo ≤ s.started_linenumber)
    × (s.started_linenumber < f.finished_linenumber)
    × (f.error_count ≡ length s.errors)
    × (s.errors ≡ section_errors env c log s.started_linenumber f.finished_linenumber)
    × Closed env c log (suc n) (suc f.finished_linenumber) ss hi

pub Closed-le :
    (env : Env) (c : Bool) (log : List String) (n lo hi hj : ℕ) (ss : List Step)
    → hi ≤ hj
    → Closed env c log n lo ss hi
    → Closed env c log n lo ss hj
Closed-le env c log n lo hi hj [] h v = omega arith
Closed-le env c log n lo hi hj (s ∷ ss) h (f, e, o, l, m, k, r, v) =
    (f, e, o, l, m, k, r, Closed-le env c log (suc n) (suc f.finished_linenumber) hi hj ss h v)

-- one more step at the end
pub Closed-snoc :
    (env : Env) (c : Bool) (log : List String) (n lo hi : ℕ) (ss : List Step) (s : Step)
    (f : Finish)
    → s.finish ≡ some f
    → s.order ≡ n + length ss
    → s.started_linenumber < f.finished_linenumber
    → f.finished_linenumber < hi
    → f.error_count ≡ length s.errors
    → s.errors ≡ section_errors env c log s.started_linenumber f.finished_linenumber
    → Closed env c log n lo ss s.started_linenumber
    → Closed env c log n lo (ss ++ s ∷ []) hi
Closed-snoc env c log n lo hi [] s f e o m h k r v = (f, e, omega arith, v, m, k, r, omega arith)
Closed-snoc env c log n lo hi (t ∷ ss) s f e o m h k r (g, a, b, d, i, j, q, v) = (
  g,
  a,
  b,
  d,
  i,
  j,
  q,
  Closed-snoc env c log (suc n) (suc g.finished_linenumber) hi ss s f e (omega arith) m h k r v,
)

pub errors_of_steps-snoc :
    (ss : List Step) (s : Step) → errors_of_steps (ss ++ s ∷ []) ≡ errors_of_steps ss ++ s.errors
unfolding errors_of_steps
errors_of_steps-snoc [] s = append-nil s.errors
errors_of_steps-snoc (t ∷ ss) s = simp (errors_of_steps-snoc ss s, append_assoc)

module _ {ℓ} {A : Type ℓ} where
  pub get_elem?-snoc : (xs : List A) (x : A) → get_elem? (xs ++ x ∷ []) (length xs) ≡ some x
  get_elem?-snoc [] x = refl
  get_elem?-snoc (y ∷ xs) x = get_elem?-snoc xs x

  pub put_at-snoc : (xs : List A) (x y : A) → put_at (length xs) y (xs ++ x ∷ []) ≡ xs ++ y ∷ []
  unfolding put_at
  put_at-snoc [] x y = refl
  put_at-snoc (z ∷ xs) x y = ap (λ l. z ∷ l) (put_at-snoc xs x y)

-- no line has a number from n on and below b
errors_between-none :
    (env : Env) (a b n : ℕ) (ls : List String) → b ≤ n → errors_between env a b n ls ≡ []
unfolding errors_between
errors_between-none env a b n [] h = refl
errors_between-none env a b n (l ∷ ls) h = ground (arith, errors_between-none env a b (suc n) ls)

-- the bound moved behind one more line
pub errors_between-next :
    (env : Env) (a n m : ℕ) (pre : List String) (l : String) (post : List String)
    → m ≡ n + length pre
    → errors_between env a (suc m) n (pre ++ l ∷ post)
      ≡ errors_between env a m n (pre ++ l ∷ post)
        ++ (if ltb a m && is_error env l then error_line m l ∷ [] else [])
unfolding errors_between
errors_between-next env a n m [] l post h = ground (
  arith,
  errors_between-none env a (suc m) (suc n) post (omega arith),
  errors_between-none env a m (suc n) post (omega arith),
)
errors_between-next env a n m (p ∷ pre) l post h =
    let before : ltb n m ≡ true = ground arith in
    let after : ltb n (suc m) ≡ true = ground arith in
    rw (before, after, errors_between-next env a (suc n) m pre l post (omega arith))
      (simp append_assoc)

-- no line stands strictly between neighbours
errors_between-neighbours :
    (env : Env) (a n : ℕ) (ls : List String) → errors_between env a (suc a) n ls ≡ []
unfolding errors_between
errors_between-neighbours env a n [] = refl
errors_between-neighbours env a n (l ∷ ls) =
    ground (arith, errors_between-neighbours env a (suc n) ls)

pub section_errors-neighbours :
    (env : Env) (c : Bool) (log : List String) (a : ℕ) → section_errors env c log a (suc a) ≡ []
section_errors-neighbours env true log a = errors_between-neighbours env a 0 log
section_errors-neighbours env false log a = refl
