-- ===== src/Optimizer/Stack/Laws.antt =====
-- The inserted operators leave the plan underneath as it was.
use robust.Prelude.{
  ℕ, ◌≡◌, refl, ap, ◌∙◌, subst, inl, inr, Bool, false, some, List, [], ◌∷◌, foldl, arith, ◌==◌,
  if◌then◌else◌, Bool-cases, Option-cases, All,
}
use mathlib.Core.List.{reverse}
use mathlib.Core.Path.{ap₂}
use robust.Column.{FilterOperation}
use robust.Plan.{
  erase, erase_all, Node, duckdb, create_filter, probe_filter, Plan, Plans, node, nil, cons,
}
use robust.Table.{TableManager}
use robust.Optimizer.Stack.Merge.{HasBalancedCreates, builds-merged_ops}
use robust.Optimizer.Stack.{
  stack_one, build_stacked, OpMap, find_ops, stack_at, apply_modifications, apply_to_children,
}

erase-stack_one :
    (m : TableManager) (p : Plan) (op : FilterOperation) → erase (stack_one m p op) ≡ erase p
unfolding stack_one erase
erase-stack_one m p op = ground arith

erase-foldl :
    (m : TableManager) (ops : List FilterOperation) (p : Plan)
    → erase (foldl (stack_one m) p ops) ≡ erase p
erase-foldl m [] p = refl
erase-foldl m (op ∷ ops) p = erase-foldl m ops (stack_one m p op) ∙ erase-stack_one m p op

-- every CREATE of a map has as many probe as build columns
abbrev pub IsBalancedMap : OpMap → Type 0
IsBalancedMap ops = All (λ (e : ℕ × List FilterOperation). HasBalancedCreates e.1) ops

found-IsBalanced :
    (k : ℕ) (ops : OpMap) (fs : List FilterOperation)
    → IsBalancedMap ops
    → find_ops k ops ≡ some fs
    → HasBalancedCreates fs
unfolding find_ops
found-IsBalanced k [] fs w e = absurd (ground (arith, e))
found-IsBalanced k ((j, gs) ∷ ops) fs w e = elim (Bool-cases (j == k)) [
  | inl h ↦ subst HasBalancedCreates {x = gs} (ground (arith, h, e)) w.0
  | inr h ↦ found-IsBalanced k ops fs w.1 (ground (arith, h, e))
]

pub erase-build_stacked :
    (m : TableManager) (p : Plan) (ops : List FilterOperation) (reverse_order : Bool)
    → HasBalancedCreates ops
    → (q : Plan) × (build_stacked m p ops reverse_order ≡ some q) × (erase q ≡ erase p)
unfolding build_stacked
erase-build_stacked m p ops reverse_order w =
    let (merged, ok, _) = builds-merged_ops ops w in
    (_, rw ok refl, erase-foldl m (if reverse_order then reverse merged else merged) p)

erase-stack_at :
    (m : TableManager) (ops : OpMap) (n : Node) (p : Plan)
    → IsBalancedMap ops
    → (q : Plan) × (stack_at m ops n p ≡ some q) × (erase q ≡ erase p)
unfolding stack_at
erase-stack_at m ops (duckdb op) p w = elim (Option-cases (find_ops op.id ops)) [
  | inl missing ↦ (p, rw (missing, stack_at) refl, refl)
  | inr (fs, found) ↦
      let (q, ok, same) =
        erase-build_stacked m p fs false (found-IsBalanced op.id ops fs w found) in
      (q, rw (found, stack_at) ok, same)
]
erase-stack_at m ops (create_filter op card) p w = (p, refl, refl)
erase-stack_at m ops (probe_filter op card) p w = (p, refl, refl)

erase_same :
    (n : Node) (ps qs : Plans) → erase_all ps ≡ erase_all qs → erase (node n ps) ≡ erase (node n qs)
unfolding erase erase_all
erase_same (duckdb op) ps qs e = ap (node (duckdb op)) e
erase_same (create_filter op card) nil nil e = refl
erase_same (create_filter op card) nil (cons q qs) e = absurd (ground (arith, e))
erase_same (create_filter op card) (cons p ps) nil e = absurd (ground (arith, e))
erase_same (create_filter op card) (cons p ps) (cons q qs) e = ground (arith, e)
erase_same (probe_filter op card) nil nil e = refl
erase_same (probe_filter op card) nil (cons q qs) e = absurd (ground (arith, e))
erase_same (probe_filter op card) (cons p ps) nil e = absurd (ground (arith, e))
erase_same (probe_filter op card) (cons p ps) (cons q qs) e = ground (arith, e)

mutual
  unfolding erase apply_modifications

  erase-apply :
      (m : TableManager) (fwd bwd : OpMap) (p : Plan)
      → IsBalancedMap fwd
      → IsBalancedMap bwd
      → (q : Plan) × (apply_modifications m fwd bwd p ≡ some q) × (erase q ≡ erase p)
  erase-apply m fwd bwd (node n children) w v =
      let (done, ran, same) = erase-apply_all m fwd bwd children w v in
      let (stacked, ran₁, same₁) = erase-stack_at m fwd n (node n done) w in
      let (q, ran₂, same₂) = erase-stack_at m bwd n stacked v in
      (q, ground (arith, ran, ran₁, ran₂), same₂ ∙ same₁ ∙ erase_same n done children same)

  erase-apply_all :
      (m : TableManager) (fwd bwd : OpMap) (ps : Plans)
      → IsBalancedMap fwd
      → IsBalancedMap bwd
      → (qs : Plans) × (apply_to_children m fwd bwd ps ≡ some qs) × (erase_all qs ≡ erase_all ps)
  erase-apply_all m fwd bwd nil w v = (nil, refl, refl)
  erase-apply_all m fwd bwd (cons p ps) w v =
      let (q, ran, same) = erase-apply m fwd bwd p w v in
      let (qs, rest, sames) = erase-apply_all m fwd bwd ps w v in
      (cons q qs, ground (arith, ran, rest), ap₂ cons same sames)

-- Where every CREATE of the maps has as many probe as build columns, the filter operations of both maps
-- are put into the plan without a fault, and without the inserted operators the modified plan is the plan
-- that was given.
pub erase-apply_modifications :
    (m : TableManager) (forward backward : OpMap) (p : Plan)
    → IsBalancedMap forward
    → IsBalancedMap backward
    → (q : Plan) × (apply_modifications m forward backward p ≡ some q) × (erase q ≡ erase p)
erase-apply_modifications m forward backward p w v = erase-apply m forward backward p w v
