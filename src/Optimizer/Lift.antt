-- ===== src/Optimizer/Lift.antt =====
-- `FindDeepestCreateFilter`, `LiftCreateFilterAboveMarkJoin` and `LiftCreateFilterAboveFilter` of
-- src/optimizer/robust_optimizer.cpp.
pub mod Laws
use robust.Prelude.{
  ℕ, zero, suc, ◌+◌, ◌-◌, ◌*◌, ◌/◌, ◌%◌, ◌^◌, ◌≤◌, ◌<◌, min, max, ◌≡◌, refl, sym, ap, ◌∙◌, subst,
  ◌≢◌, ◌↔◌, ◌⊎◌, inl, inr, Bool, true, false, not, ◌&&◌, ◌||◌, Option, none, some, List, [], ◌∷◌,
  ◌++◌, map, foldl, arith, ltb, leb, ◌==◌, if◌then◌else◌, ltb→lt, lt→ltb, ==_iff, ==_refl,
  Bool-cases, and-eq-true, Option-cases, ◌>>=◌, >>=-eq-some, length, get_elem?, get_or, set,
  replicate, is_empty, tail, length-append, length-set, In, All, All-In, In-append,
}
use robust.Column.{JoinType, mark}
use robust.Plan.{
  Operator, OperatorType, comparison_join, filter, Node, duckdb, create_filter, probe_filter, Plan,
  Plans, node, nil, cons,
}

unfoldable pub is_create_node : Node → Bool
is_create_node (create_filter op card) = true
is_create_node _ = false

-- The deepest CREATE_FILTER of the chain of first children, with the detachment that both passes
-- make there: the plan below it, and the block from the top down to it, over another plan. A
-- CREATE_FILTER always has a child.
unfoldable pub detach : Plan → Option (Plan × (Plan → Plan))
unfolding is_create_node
detach (node n nil) = none
detach (node n (cons child rest)) =
    let here : Option (Plan × (Plan → Plan)) =
      if is_create_node n then some (child, λ plan. node n (cons plan nil)) else none in
    elim (detach child) [
      | some (below, block) ↦ some (below, λ plan. node n (cons (block plan) rest))
      | none ↦ here
    ]

unfoldable pub is_mark_join : Node → Bool
is_mark_join (duckdb op) = elim op.type [
  | comparison_join ↦ elim op.join_type [ mark ↦ true | _ ↦ false ]
  | _ ↦ false
]
is_mark_join _ = false

unfoldable pub is_filter : Node → Bool
is_filter (duckdb op) = elim op.type [ filter ↦ true | _ ↦ false ]
is_filter _ = false

-- the detachment at one operator, whose children have been visited
unfoldable pub lift_here : (Node → Bool) → Node → Plans → Plan
unfolding detach
lift_here matches n nil = node n nil
lift_here matches n (cons child rest) =
    let lifted : Plan = elim (detach child) [
      | none ↦ node n (cons child rest)
      | some (below, block) ↦ block (node n (cons below rest))
    ] in
    if matches n then lifted else node n (cons child rest)

unfoldable mutual
  pub lift : (Node → Bool) → Plan → Plan
  lift matches (node n children) = lift_here matches n (lift_children matches children)

  pub lift_children : (Node → Bool) → Plans → Plans
  lift_children matches nil = nil
  lift_children matches (cons p ps) = cons (lift matches p) (lift_children matches ps)

unfoldable pub lift_above_mark_join : Plan → Plan
lift_above_mark_join = lift is_mark_join

unfoldable pub lift_above_filter : Plan → Plan
lift_above_filter = lift is_filter
