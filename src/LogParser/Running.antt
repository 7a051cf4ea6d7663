-- ===== src/LogParser/Running.antt =====
-- The default builders of ArtifactBuilderCollection while a log is read line by line.
use treeherder_service.Prelude.{
  ℕ, suc, String, ◌≡◌, refl, ap, subst, Bool, List, [], ◌∷◌, ◌++◌, length, string_eq, if◌then◌else◌,
}
use treeherder_service.Json.{Json, ok, ◌>>=◌, Holds, Holds-bind, Holds-then, Holds-if, Holds-map}
use treeherder_service.LogParser.{Env}
use treeherder_service.LogParser.Header.{HeaderParser}
use treeherder_service.LogParser.Header
use treeherder_service.LogParser.Steps.{Step, StepParser}
use treeherder_service.LogParser.Steps
use treeherder_service.LogParser.Details.{Detail, parse_print, parse_talos}
use treeherder_service.LogParser.StepsValid.{Sectioned, parse_line-Sectioned}
use treeherder_service.LogParser.Builders.{
  Parser, header, step_data, job_details, talos_data, Builder, build_line, build_each, parse_all,
  parse_with, cut_line,
}

abbrev pub view : String → ℕ → HeaderParser → StepParser → Builder
view url n h p = record {
  logurl = url;
  lineno = n;
  parsers = header h ∷ step_data p ∷ [];
  name = "Structured Log";
}

abbrev pub info : String → ℕ → List Detail → Builder
info url n ds = record {
  logurl = url;
  lineno = n;
  parsers = job_details ds ∷ [];
  name = "Job Info";
}

abbrev pub performance : String → ℕ → Json → Builder
performance url n v = record {
  logurl = url;
  lineno = n;
  parsers = talos_data v ∷ [];
  name = "talos_data";
}

-- the default builders in front of the line n
pub data Running (env : Env) (c : Bool) (log : List String) (url : String)
    : ℕ → List Builder → Type 0 where
  running :
      (n : ℕ) (h : HeaderParser) (p : StepParser) (ds : List Detail) (v : Json)
      → Sectioned env c log n p
      → Running env c log url n (view url n h p ∷ info url n ds ∷ performance url n v ∷ [])

-- what the parsers of each builder, and the builders themselves, are in front of the line n
abbrev pub Viewing : Env → Bool → List String → ℕ → List Parser → Type 0
Viewing env c log n ps =
    (g : HeaderParser) × (q : StepParser) × (ps ≡ header g ∷ step_data q ∷ [])
    × Sectioned env c log n q

abbrev pub IsView : Env → Bool → List String → String → ℕ → Builder → Type 0
IsView env c log url n b =
    (g : HeaderParser) × (q : StepParser) × (b ≡ view url n g q) × Sectioned env c log n q

abbrev pub IsInfo : String → ℕ → Builder → Type 0
IsInfo url n b = (es : List Detail) × (b ≡ info url n es)

abbrev pub IsPerformance : String → ℕ → Builder → Type 0
IsPerformance url n b = (w : Json) × (b ≡ performance url n w)

abbrev pub IsCons : (Builder → Type 0) → (List Builder → Type 0) → List Builder → Type 0
IsCons Q R cs = (d : Builder) × (ds : List Builder) × (cs ≡ d ∷ ds) × Q d × R ds

header_stays :
    (env : Env) (line : String) (n : ℕ) (h : HeaderParser)
    → Holds
        (λ q. (g : HeaderParser) × (q ≡ header g))
        (if h.complete then ok (header h) else parse_with env line n (header h))
unfolding parse_with
header_stays env line n h =
    Holds-if _ h.complete _ _ (h, refl)
      (Holds-bind _ (Header.parse_line env line h) _ (λ g. (g, refl)))

step_line :
    (env : Env) (c : Bool) (log pre : List String) (l : String) (post : List String) (n : ℕ)
    (p : StepParser)
    → log ≡ pre ++ l ∷ post
    → n ≡ length pre
    → Sectioned env c log n p
    → Holds
        (λ r. (q : StepParser) × (r ≡ step_data q) × Sectioned env c log (suc n) q)
        (parse_with env l n (step_data p))
unfolding parse_with
step_line env c log pre l post n p d i s =
    Holds-then (Sectioned env c log (suc n)) _ (Steps.parse_line env l n p) _
      (parse_line-Sectioned env c log n pre l post p d i s) (λ q t. (q, refl, t))

parse_all-Viewing :
    (env : Env) (c : Bool) (log pre : List String) (l : String) (post : List String) (n : ℕ)
    (h : HeaderParser) (p : StepParser)
    → log ≡ pre ++ l ∷ post
    → n ≡ length pre
    → Sectioned env c log n p
    → Holds (Viewing env c log (suc n)) (parse_all env l n (header h ∷ step_data p ∷ []))
unfolding parse_all
parse_all-Viewing env c log pre l post n h p d i s =
    Holds-then (λ q. (g : HeaderParser) × (q ≡ header g)) _ _ _ (header_stays env l n h)
      (λ q (g, e).
        Holds-then
          (λ qs. (r : StepParser) × (qs ≡ step_data r ∷ []) × Sectioned env c log (suc n) r) _
          (parse_all env l n (step_data p ∷ [])) _
          (Holds-then _ _ (parse_with env l n (step_data p)) _
            (step_line env c log pre l post n p d i s) (λ r (t, f, v). (t, ap (λ x. x ∷ []) f, v)))
          (λ qs (r, f, v). (g, r, cc (e, f), v)))

-- a builder whose one parser keeps its class
details_line :
    (env : Env) (l : String) (n : ℕ) (ds : List Detail)
    → Holds
        (λ ps. (es : List Detail) × (ps ≡ job_details es ∷ []))
        (parse_all env l n (job_details ds ∷ []))
unfolding parse_all parse_with
details_line env l n ds =
    Holds-then (λ q. (es : List Detail) × (q ≡ job_details es)) _
      (parse_print env l ds >>= λ es. ok (job_details es)) _
      (Holds-bind _ (parse_print env l ds) _ (λ es. (es, refl)))
      (λ q (es, e). (es, ap (λ x. x ∷ []) e))

talos_line :
    (env : Env) (l : String) (n : ℕ) (v : Json)
    → Holds (λ ps. (w : Json) × (ps ≡ talos_data w ∷ [])) (parse_all env l n (talos_data v ∷ []))
unfolding parse_all parse_with
talos_line env l n v =
    Holds-then (λ q. (w : Json) × (q ≡ talos_data w)) _
      (parse_talos env l v >>= λ w. ok (talos_data w)) _
      (Holds-bind _ (parse_talos env l v) _ (λ w. (w, refl))) (λ q (w, e). (w, ap (λ x. x ∷ []) e))

build_line-IsView :
    (env : Env) (c : Bool) (log : List String) (url : String) (pre : List String) (l : String)
    (post : List String) (n : ℕ) (h : HeaderParser) (p : StepParser)
    → log ≡ pre ++ cut_line l ∷ post
    → n ≡ length pre
    → Sectioned env c log n p
    → Holds (IsView env c log url (suc n)) (build_line env l (view url n h p))
unfolding build_line
build_line-IsView env c log url pre l post n h p d i s =
    Holds-then (Viewing env c log (suc n)) _ _ _
      (parse_all-Viewing env c log pre (cut_line l) post n h p d i s)
      (λ ps (g, q, e, t). (g, q, rw e refl, t))

build_line-IsInfo :
    (env : Env) (url l : String) (n : ℕ) (ds : List Detail)
    → Holds (IsInfo url (suc n)) (build_line env l (info url n ds))
unfolding build_line
build_line-IsInfo env url l n ds =
    Holds-then (λ ps. (es : List Detail) × (ps ≡ job_details es ∷ [])) _ _ _
      (details_line env (cut_line l) n ds) (λ ps (es, e). (es, rw e refl))

build_line-IsPerformance :
    (env : Env) (url l : String) (n : ℕ) (v : Json)
    → Holds (IsPerformance url (suc n)) (build_line env l (performance url n v))
unfolding build_line
build_line-IsPerformance env url l n v =
    Holds-then (λ ps. (w : Json) × (ps ≡ talos_data w ∷ [])) _ _ _ (talos_line env (cut_line l) n v)
      (λ ps (w, e). (w, rw e refl))

build_each-IsCons :
    (env : Env) (l : String) (Q : Builder → Type 0) (R : List Builder → Type 0) (b : Builder)
    (bs : List Builder)
    → Holds Q (build_line env l b)
    → Holds R (build_each env l bs)
    → Holds (IsCons Q R) (build_each env l (b ∷ bs))
unfolding build_each
build_each-IsCons env l Q R b bs h k =
    Holds-then Q _ _ _ h (λ d q. Holds-then R _ _ _ k (λ ds r. (d, ds, refl, q, r)))

none_left : (env : Env) (l : String) → Holds (λ bs. bs ≡ []) (build_each env l [])
unfolding build_each
none_left env l = refl

pub line-Running :
    (env : Env) (c : Bool) (log : List String) (url : String) (pre : List String) (l : String)
    (post : List String) (n : ℕ) (bs : List Builder)
    → log ≡ pre ++ cut_line l ∷ post
    → n ≡ length pre
    → Running env c log url n bs
    → Holds (Running env c log url (suc n)) (build_each env l bs)
line-Running env c log url pre l post n bs d i (running _ h p ds v s) =
    let Last = IsCons (IsPerformance url (suc n)) (λ bs. bs ≡ []) in
    let Both = IsCons (IsInfo url (suc n)) Last in
    Holds-map (IsCons (IsView env c log url (suc n)) Both) _ _
      (λ cs (b, bs, e, (g, q, f, t), (b2, bs2, e2, (es, f2), (b3, bs3, e3, (w, f3), e4))).
        subst (Running env c log url (suc n)) (cc (e, f, e2, f2, e3, f3, e4))
          (running (suc n) g q es w t))
      (build_each-IsCons env l (IsView env c log url (suc n)) Both _ _
        (build_line-IsView env c log url pre l post n h p d i s)
        (build_each-IsCons env l (IsInfo url (suc n)) Last _ _ (build_line-IsInfo env url l n ds) (
          build_each-IsCons env l (IsPerformance url (suc n)) (λ bs. bs ≡ []) _ _
            (build_line-IsPerformance env url l n v) (none_left env l))))
