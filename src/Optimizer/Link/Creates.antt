-- ===== src/Optimizer/Link/Creates.antt =====
-- The map of the CREATE_FILTERs of `LinkProbeFilterToCreateFilter` of
-- src/optimizer/robust_optimizer.cpp.
use robust.Prelude.{
  ℕ, zero, suc, ◌+◌, ◌≡◌, refl, sym, ap, ◌∙◌, subst, ◌↔◌, ◌⊎◌, inl, inr, true, none, some, List, [],
  ◌∷◌, ◌++◌, arith, ◌==◌, if◌then◌else◌, ==_iff, Bool-cases, Option-cases, ◌>>=◌, >>=-eq-some,
  get_elem?, In, In-append,
}
use mathlib.Core.Option.{some-injective}
use robust.Column.{FilterOperation}
use robust.Plan.{Node}
use robust.Optimizer.Link.{
  add_create, CreateMap, create_operation, find_creates, put_create, collect_creates, has_table,
  first_create, wanted_create,
}

unfoldable pub creates_of : ℕ → CreateMap → List (ℕ × FilterOperation)
creates_of t m = elim (find_creates t m) [ none ↦ [] | some creates ↦ creates ]

creates_of-put_create :
    (t u : ℕ) (c : ℕ × FilterOperation) (m : CreateMap)
    → creates_of t (put_create u c m)
      ≡ (if u == t then creates_of t m ++ c ∷ [] else creates_of t m)
unfolding creates_of find_creates put_create
creates_of-put_create t u c [] = ground arith
creates_of-put_create t u c ((k, creates) ∷ m) = ground (arith, creates_of-put_create t u c m)

In-put_create :
    (t u : ℕ) (c x : ℕ × FilterOperation) (m : CreateMap)
    → In x (creates_of t (put_create u c m)) ↔ (In x (creates_of t m) ⊎ ((u ≡ t) × (x ≡ c)))
In-put_create t u c x m = elim (Bool-cases (u == t)) [
  | inl h ↦
      subst
        (λ (l : List (ℕ × FilterOperation)). In x l ↔ (In x (creates_of t m) ⊎ ((u ≡ t) × (x ≡ c))))
        {x = creates_of t m ++ c ∷ []} (ground (arith, h, creates_of-put_create t u c m))
        (ground (arith, In-append x (creates_of t m) (c ∷ []), (==_iff u t).0 h))
  | inr h ↦
      subst
        (λ (l : List (ℕ × FilterOperation)). In x l ↔ (In x (creates_of t m) ⊎ ((u ≡ t) × (x ≡ c))))
        {x = creates_of t m} (ground (arith, h, creates_of-put_create t u c m)) (ground (arith, h))
]

-- A CREATE_FILTER of the build table at a position.
pub record IsCreateAt (ns : List Node) (t j : ℕ) (f : FilterOperation) : Type 0 where
  pub found : (get_elem? ns j >>= create_operation) ≡ some f
  pub build : f.build_table_idx ≡ t

added :
    (t i : ℕ) (n : Node) (m : CreateMap) (c : ℕ) (f : FilterOperation)
    → In (c, f) (creates_of t (add_create i n m))
    → In (c, f) (creates_of t m)
      ⊎ ((c ≡ i) × (create_operation n ≡ some f) × (f.build_table_idx ≡ t))
unfolding add_create
added t i n m c f h = elim (Option-cases (create_operation n)) [
  | inl e ↦ inl (subst (λ (x : CreateMap). In (c, f) (creates_of t x)) (ground (arith, e)) h)
  | inr (g, e) ↦
      let h' : In (c, f) (creates_of t (put_create g.build_table_idx (i, g) m)) =
        subst (λ (x : CreateMap). In (c, f) (creates_of t x)) (ground (arith, e)) h in
      elim ((In-put_create t g.build_table_idx (i, g) (c, f) m).0 h') [
        | inl k ↦ inl k
        | inr (at, k) ↦
            let same : g ≡ f = ap (λ (x : ℕ × FilterOperation). x.1) (sym k) in
            inr (
              ap (λ (x : ℕ × FilterOperation). x.0) k,
              e ∙ ap some same,
              ap (λ (x : FilterOperation). x.build_table_idx) (sym same) ∙ at,
            )
      ]
]

collected :
    (t i : ℕ) (ns : List Node) (m : CreateMap) (c : ℕ) (f : FilterOperation)
    → In (c, f) (creates_of t (collect_creates i ns m))
    → In (c, f) (creates_of t m) ⊎ ((j : ℕ) × (c ≡ i + j) × IsCreateAt ns t j f)
unfolding collect_creates
collected t i [] m c f h = inl h
collected t i (n ∷ ns) m c f h = elim (collected t (suc i) ns (add_create i n m) c f h) [
  | inr (j, at, w) ↦ inr (suc j, omega (arith, at), record { found = w.found; build = w.build })
  | inl k ↦ elim (added t i n m c f k) [
    | inl k' ↦ inl k'
    | inr (at, e, b) ↦ inr (0, omega (arith, at), record { found = e; build = b })
  ]
]

kept_create :
    (t i : ℕ) (n : Node) (m : CreateMap) (x : ℕ × FilterOperation)
    → In x (creates_of t m)
    → In x (creates_of t (add_create i n m))
unfolding add_create
kept_create t i n m x h = elim (Option-cases (create_operation n)) [
  | inl e ↦ subst (λ (y : CreateMap). In x (creates_of t y)) {x = m} (ground (arith, e)) h
  | inr (g, e) ↦
      subst (λ (y : CreateMap). In x (creates_of t y)) {x = put_create g.build_table_idx (i, g) m}
        (ground (arith, e)) ((In-put_create t g.build_table_idx (i, g) x m).1 (inl h))
]

new_create :
    (i : ℕ) (n : Node) (m : CreateMap) (f : FilterOperation)
    → create_operation n ≡ some f
    → In (i, f) (creates_of f.build_table_idx (add_create i n m))
unfolding add_create
new_create i n m f e =
    subst (λ (y : CreateMap). In (i, f) (creates_of f.build_table_idx y))
      {x = put_create f.build_table_idx (i, f) m} (ground (arith, e))
      ((In-put_create f.build_table_idx f.build_table_idx (i, f) (i, f) m).1 (inr (refl, refl)))

kept_creates :
    (t i : ℕ) (ns : List Node) (m : CreateMap) (x : ℕ × FilterOperation)
    → In x (creates_of t m)
    → In x (creates_of t (collect_creates i ns m))
unfolding collect_creates
kept_creates t i [] m x h = h
kept_creates t i (n ∷ ns) m x h =
    kept_creates t (suc i) ns (add_create i n m) x (kept_create t i n m x h)

all_collected :
    (i j : ℕ) (ns : List Node) (m : CreateMap) (f : FilterOperation)
    → (get_elem? ns j >>= create_operation) ≡ some f
    → In (i + j, f) (creates_of f.build_table_idx (collect_creates i ns m))
unfolding collect_creates
all_collected i j [] m f e = absurd (ground (arith, e))
all_collected i zero (n ∷ ns) m f e =
    subst
      (λ (x : ℕ).
        In (x, f) (creates_of f.build_table_idx (collect_creates (suc i) ns (add_create i n m))))
      {x = i} (omega arith)
      (kept_creates f.build_table_idx (suc i) ns (add_create i n m) (i, f) (new_create i n m f e))
all_collected i (suc j) (n ∷ ns) m f e =
    subst
      (λ (x : ℕ).
        In (x, f) (creates_of f.build_table_idx (collect_creates (suc i) ns (add_create i n m))))
      {x = suc i + j} (omega arith) (all_collected (suc i) j ns (add_create i n m) f e)

first_create_sound :
    (t c : ℕ) (creates : List (ℕ × FilterOperation))
    → first_create t creates ≡ some c
    → (f : FilterOperation) × In (c, f) creates × (has_table t f.probe_columns ≡ true)
unfolding first_create
first_create_sound t c [] e = absurd (ground (arith, e))
first_create_sound t c ((d, f) ∷ creates) e = elim (Bool-cases (has_table t f.probe_columns)) [
  | inl h ↦ (f, inl (ap (λ (x : ℕ). (x, f)) (sym (some-injective d c (ground (arith, e, h))))), h)
  | inr h ↦ let (g, i, k) = first_create_sound t c creates (ground (arith, e, h)) in (g, inr i, k)
]

first_create_complete :
    (t c : ℕ) (f : FilterOperation) (creates : List (ℕ × FilterOperation))
    → In (c, f) creates
    → has_table t f.probe_columns ≡ true
    → (d : ℕ) × (first_create t creates ≡ some d)
unfolding first_create
first_create_complete t c f [] i h = absurd i
first_create_complete t c f ((d, g) ∷ creates) i h =
    elim (Bool-cases (has_table t g.probe_columns)) [
      | inl k ↦ (d, ground (arith, k))
      | inr k ↦ elim i [
        | inl same ↦ absurd (
            ground
              (arith, h, k, ap (λ (x : ℕ × FilterOperation). has_table t x.1.probe_columns) same))
        | inr i' ↦
            let (d', e) = first_create_complete t c f creates i' h in (d', ground (arith, k, e))
      ]
    ]

creates_of-some :
    (t : ℕ) (m : CreateMap) (creates : List (ℕ × FilterOperation))
    → find_creates t m ≡ some creates
    → creates_of t m ≡ creates
unfolding creates_of
creates_of-some t m creates e = ground (arith, e)

-- The CREATE_FILTER that a probe asks for has its build table and a probe column of its probe table.
pub wanted_create_sound :
    (ns : List Node) (f : FilterOperation) (c : ℕ)
    → wanted_create (collect_creates 0 ns []) f ≡ some c
    → (g : FilterOperation) × IsCreateAt ns f.build_table_idx c g
      × (has_table f.probe_table_idx g.probe_columns ≡ true)
unfolding wanted_create creates_of find_creates
wanted_create_sound ns f c e =
    let m = collect_creates 0 ns [] in
    let (creates, at, e') = >>=-eq-some (find_creates f.build_table_idx m) _ e in
    let (g, i, h) = first_create_sound f.probe_table_idx c creates e' in
    let i' : In (c, g) (creates_of f.build_table_idx m) =
      subst (In (c, g)) (sym (creates_of-some f.build_table_idx m creates at)) i in
    elim (collected f.build_table_idx 0 ns [] c g i') [
      | inl k ↦ absurd k
      | inr (j, same, w) ↦
          (g, subst (λ (x : ℕ). IsCreateAt ns f.build_table_idx x g) (omega (arith, same)) w, h)
    ]

-- If there is such a CREATE_FILTER, then one is found.
pub wanted_create_complete :
    (ns : List Node) (f g : FilterOperation) (j : ℕ)
    → IsCreateAt ns f.build_table_idx j g
    → has_table f.probe_table_idx g.probe_columns ≡ true
    → (c : ℕ) × (wanted_create (collect_creates 0 ns []) f ≡ some c)
unfolding wanted_create creates_of
wanted_create_complete ns f g j w h =
    let m = collect_creates 0 ns [] in
    let i : In (0 + j, g) (creates_of f.build_table_idx m) =
      subst (λ (t : ℕ). In (0 + j, g) (creates_of t m)) w.build
        (all_collected 0 j ns [] g w.found) in
    elim (Option-cases (find_creates f.build_table_idx m)) [
      | inl e ↦ absurd (subst (In (0 + j, g)) {y = []} (ground (arith, e)) i)
      | inr (creates, e) ↦
          let (c, found) =
            first_create_complete f.probe_table_idx (0 + j) g creates
              (subst (In (0 + j, g)) (creates_of-some f.build_table_idx m creates e) i) h in
          (c, ground (arith, e, found))
    ]
