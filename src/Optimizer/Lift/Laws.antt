-- ===== src/Optimizer/Lift/Laws.antt =====
-- When lifting keeps the plan without the extension's operators, and when it does not.
use robust.Prelude.{
  ℕ, ◌≡◌, refl, ap, ◌∙◌, subst, ◌⊎◌, inl, inr, Bool, false, none, some, arith, Bool-cases,
  Option-cases,
}
use mathlib.Core.Path.{ap₂}
use robust.Plan.{
  erase, erase_all, Operator, Node, duckdb, create_filter, probe_filter, Plan, Plans, node, nil,
  cons,
}
use robust.Column.{FilterOperation}
use robust.Optimizer.Lift.{
  detach, is_filter, is_mark_join, lift_here, lift, lift_children, lift_above_filter,
  lift_above_mark_join,
}

-- The block that is detached from a plan holds the extension's operators only: a DuckDB operator of
-- the chain has no CREATE_FILTER below it.
abbrev pub IsFilterBlock : Plan → Type 0
IsFilterBlock (node (duckdb op) nil) = Unit {0}
IsFilterBlock (node (duckdb op) (cons p ps)) = detach p ≡ none
IsFilterBlock (node (create_filter op card) nil) = Unit {0}
IsFilterBlock (node (create_filter op card) (cons p ps)) = IsFilterBlock p
IsFilterBlock (node (probe_filter op card) nil) = Unit {0}
IsFilterBlock (node (probe_filter op card) (cons p ps)) = IsFilterBlock p

some-eq : {A : Type 0} {a b : A} → some a ≡ some b → a ≡ b
some-eq e = cc

erase-detach :
    (p below : Plan) (block : Plan → Plan)
    → IsFilterBlock p
    → detach p ≡ some (below, block)
    → (erase below ≡ erase p) × ((q : Plan) → erase (block q) ≡ erase q)
unfolding detach erase
erase-detach (node (duckdb op) nil) below block w e = cc
erase-detach (node (duckdb op) (cons p ps)) below block w e = cc (rw (w, detach) at e)
erase-detach (node (create_filter op card) nil) below block w e = cc
erase-detach (node (create_filter op card) (cons p ps)) below block w e =
    elim (Option-cases (detach p)) [
      | inl bottom ↦ ground (arith, e, bottom)
      | inr ((deeper, inner), found) ↦
          let (same, through) = erase-detach p deeper inner w found in
          subst
            (λ (r : Plan × (Plan → Plan)).
              (erase r.0 ≡ erase p) × ((q : Plan) → erase (r.1 q) ≡ erase q))
            (some-eq (rw (found, detach) at e)) (same, through)
    ]
erase-detach (node (probe_filter op card) nil) below block w e = cc
erase-detach (node (probe_filter op card) (cons p ps)) below block w e =
    elim (Option-cases (detach p)) [
      | inl bottom ↦ ground (arith, e, bottom)
      | inr ((deeper, inner), found) ↦
          let (same, through) = erase-detach p deeper inner w found in
          subst
            (λ (r : Plan × (Plan → Plan)).
              (erase r.0 ≡ erase p) × ((q : Plan) → erase (r.1 q) ≡ erase q))
            (some-eq (rw (found, detach) at e)) (same, through)
    ]

-- Wherever something is detached, the block is one of the extension's operators only.
abbrev pub IsSafeHere : (Node → Bool) → Node → Plans → Type 0
IsSafeHere matches n nil = Unit {0}
IsSafeHere matches n (cons child rest) =
    (matches n ≡ false) ⊎ (detach child ≡ none) ⊎ (IsFilterBlock child)

erase-lift_here :
    (matches : Node → Bool) (op : Operator) (children : Plans)
    → IsSafeHere matches (duckdb op) children
    → erase (lift_here matches (duckdb op) children) ≡ erase (node (duckdb op) children)
unfolding lift_here erase
erase-lift_here matches op nil w = refl
erase-lift_here matches op (cons child rest) (inl other) = ground (arith, other)
erase-lift_here matches op (cons child rest) (inr (inl bare)) = ground (arith, bare)
erase-lift_here matches op (cons child rest) (inr (inr w)) = elim (Option-cases (detach child)) [
  | inl bare ↦ ground (arith, bare)
  | inr ((below, block), found) ↦
      let (same, through) = erase-detach child below block w found in
      elim (Bool-cases (matches (duckdb op))) [
        | inr other ↦ ground (arith, other)
        | inl hit ↦
            let moved : lift_here matches (duckdb op) (cons child rest)
                ≡ block (node (duckdb op) (cons below rest)) =
              ground (arith, hit, found) in
            ap erase moved
            ∙ through (node (duckdb op) (cons below rest))
            ∙ ap (λ t. node (duckdb op) (cons t (erase_all rest))) same
      ]
]

-- The pass looks for DuckDB operators only.
abbrev pub IsOperatorTest : (Node → Bool) → Type 0
IsOperatorTest matches =
    ((op : FilterOperation) (card : ℕ) → matches (create_filter op card) ≡ false)
    × ((op : FilterOperation) (card : ℕ) → matches (probe_filter op card) ≡ false)

abbrev mutual
  pub IsSafe : (Node → Bool) → Plan → Type 0
  IsSafe matches (node n children) =
      IsSafeHere matches n (lift_children matches children) × IsSafeAll matches children

  pub IsSafeAll : (Node → Bool) → Plans → Type 0
  IsSafeAll matches nil = Unit {0}
  IsSafeAll matches (cons p ps) = IsSafe matches p × IsSafeAll matches ps

-- Only DuckDB operators are matched, so an operator of the extension stays in its place.
not_lifted :
    (matches : Node → Bool) (n : Node) (children : Plans)
    → matches n ≡ false
    → lift_here matches n children ≡ node n children
unfolding lift_here
not_lifted matches n nil e = refl
not_lifted matches n (cons p ps) e = ground (arith, e)

mutual
  unfolding erase lift

  erase-lift_of :
      (matches : Node → Bool) (test : IsOperatorTest matches) (p : Plan)
      → IsSafe matches p
      → erase (lift matches p) ≡ erase p
  erase-lift_of matches test (node (duckdb op) children) w =
      erase-lift_here matches op (lift_children matches children) w.0
      ∙ ap (node (duckdb op)) (erase-lift_children matches test children w.1)
  erase-lift_of matches test (node (create_filter op card) nil) w =
      ap erase (not_lifted matches (create_filter op card) nil (test.0 op card))
  erase-lift_of matches test (node (create_filter op card) (cons p ps)) w =
      ap erase (
        not_lifted matches (create_filter op card) (lift_children matches (cons p ps))
          (test.0 op card))
      ∙ erase-lift_of matches test p w.1.0
  erase-lift_of matches test (node (probe_filter op card) nil) w =
      ap erase (not_lifted matches (probe_filter op card) nil (test.1 op card))
  erase-lift_of matches test (node (probe_filter op card) (cons p ps)) w =
      ap erase (
        not_lifted matches (probe_filter op card) (lift_children matches (cons p ps))
          (test.1 op card))
      ∙ erase-lift_of matches test p w.1.0

  erase-lift_children :
      (matches : Node → Bool) (test : IsOperatorTest matches) (ps : Plans)
      → IsSafeAll matches ps
      → erase_all (lift_children matches ps) ≡ erase_all ps
  erase-lift_children matches test nil w = refl
  erase-lift_children matches test (cons p ps) w =
      ap₂ cons (erase-lift_of matches test p w.0) (erase-lift_children matches test ps w.1)

-- Where each detached block holds the extension's operators only, both lifting passes keep the plan
-- that stands without them.
pub erase-lift_above :
    (p : Plan)
    → IsSafe is_mark_join p
    → IsSafe is_filter (lift_above_mark_join p)
    → erase (lift_above_filter (lift_above_mark_join p)) ≡ erase p
unfolding lift_above_filter lift_above_mark_join is_filter is_mark_join
erase-lift_above p w v =
    erase-lift_of is_filter (λ op card. refl, λ op card. refl) (lift is_mark_join p) v
    ∙ erase-lift_of is_mark_join (λ op card. refl, λ op card. refl) p w
