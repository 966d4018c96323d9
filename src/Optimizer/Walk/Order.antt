-- ===== src/Optimizer/Walk/Order.antt =====
-- The order of the walk of src/optimizer/robust_optimizer.cpp.
use robust.Prelude.{
  ℕ, zero, suc, ◌+◌, ◌≤◌, ◌≡◌, refl, sym, ap, ◌∙◌, Option, some, List, [], ◌∷◌, ◌++◌, arith, ◌>>=◌,
}
use robust.Plan.{Node, Plan, Plans, node, nil, cons}
use robust.Optimizer.Walk.{push_children, walk, count_operators, count_all, operators}

-- An operator comes before its children, and a later child before an earlier one.
unfoldable mutual
  pub last_first : Plan → List Node
  last_first (node n children) = n ∷ all_last_first children

  pub all_last_first : Plans → List Node
  all_last_first nil = []
  all_last_first (cons p ps) = all_last_first ps ++ last_first p

unfoldable queue_order : List Plan → List Node
queue_order [] = []
queue_order (p ∷ queue) = last_first p ++ queue_order queue

unfoldable queue_count : List Plan → ℕ
queue_count [] = 0
queue_count (p ∷ queue) = count_operators p + queue_count queue

append_assoc : (xs ys zs : List Node) → (xs ++ ys) ++ zs ≡ xs ++ (ys ++ zs)
append_assoc [] ys zs = refl
append_assoc (x ∷ xs) ys zs = ap (λ (t : List Node). x ∷ t) (append_assoc xs ys zs)

append_empty : (xs : List Node) → xs ++ [] ≡ xs
append_empty [] = refl
append_empty (x ∷ xs) = ap (λ (t : List Node). x ∷ t) (append_empty xs)

queue_order-push_children :
    (ps : Plans) (queue : List Plan)
    → queue_order (push_children ps queue) ≡ all_last_first ps ++ queue_order queue
unfolding queue_order push_children all_last_first
queue_order-push_children nil queue = refl
queue_order-push_children (cons p ps) queue =
    queue_order-push_children ps (p ∷ queue)
    ∙ sym (append_assoc (all_last_first ps) (last_first p) (queue_order queue))

queue_count-push_children :
    (ps : Plans) (queue : List Plan)
    → queue_count (push_children ps queue) ≡ count_all ps + queue_count queue
unfolding queue_count push_children count_all
queue_count-push_children nil queue = ground arith
queue_count-push_children (cons p ps) queue =
    ground (arith, queue_count-push_children ps (p ∷ queue))

walk-queue_order :
    (fuel : ℕ) (queue : List Plan)
    → queue_count queue ≤ fuel
    → walk fuel queue ≡ some (queue_order queue)
unfolding walk queue_order queue_count last_first count_operators
walk-queue_order fuel [] enough = refl
walk-queue_order zero (node n children ∷ queue) enough = absurd (ground (arith, enough))
walk-queue_order (suc fuel) (node n children ∷ queue) enough =
    let more =
      walk-queue_order fuel (push_children children queue)
        (ground (arith, enough, queue_count-push_children children queue)) in
    ap (λ (o : Option (List Node)). o >>= λ rest. some (n ∷ rest))
      (more ∙ ap some (queue_order-push_children children queue))

-- The walk ends within one round for each operator, and visits every operator once: each before its
-- children, a later child before an earlier one.
pub operators-last_first : (p : Plan) → operators p ≡ some (last_first p)
unfolding operators queue_order queue_count
operators-last_first p =
    walk-queue_order (count_operators p) (p ∷ []) (omega arith)
    ∙ ap some (append_empty (last_first p))
