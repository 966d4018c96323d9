-- ===== src/Optimizer/Walk.antt =====
-- The walk over a plan by a stack of operators that `LinkProbeFilterToCreateFilter` and
-- `SetupDynamicFilterPushdown` of src/optimizer/robust_optimizer.cpp start with.
pub mod Order
use robust.Prelude.{
  ℕ, zero, suc, ◌+◌, ◌-◌, ◌*◌, ◌/◌, ◌%◌, ◌^◌, ◌≤◌, ◌<◌, min, max, ◌≡◌, refl, sym, ap, ◌∙◌, subst,
  ◌≢◌, ◌↔◌, ◌⊎◌, inl, inr, Bool, true, false, not, ◌&&◌, ◌||◌, Option, none, some, List, [], ◌∷◌,
  ◌++◌, map, foldl, arith, ltb, leb, ◌==◌, if◌then◌else◌, ltb→lt, lt→ltb, ==_iff, ==_refl,
  Bool-cases, and-eq-true, Option-cases, ◌>>=◌, >>=-eq-some, length, get_elem?, get_or, set,
  replicate, is_empty, tail, length-append, length-set, In, All, All-In, In-append,
}
use robust.Plan.{Node, Plan, Plans, node, nil, cons}

-- The children are pushed one after the other, so the last one is on top: the head of the list.
unfoldable pub push_children : Plans → List Plan → List Plan
push_children nil queue = queue
push_children (cons p ps) queue = push_children ps (p ∷ queue)

-- The operators in the order of the visits, on fuel.
unfoldable pub walk : ℕ → List Plan → Option (List Node)
walk fuel [] = some []
walk zero (p ∷ queue) = none
walk (suc fuel) (node n children ∷ queue) =
    walk fuel (push_children children queue) >>= λ rest. some (n ∷ rest)

unfoldable mutual
  pub count_operators : Plan → ℕ
  count_operators (node n children) = suc (count_all children)

  pub count_all : Plans → ℕ
  count_all nil = 0
  count_all (cons p ps) = count_operators p + count_all ps

-- One round for each operator.
unfoldable pub operators : Plan → Option (List Node)
operators p = walk (count_operators p) (p ∷ [])
