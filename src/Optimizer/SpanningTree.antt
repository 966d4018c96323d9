-- ===== src/Optimizer/SpanningTree.antt =====
-- `LargestRoot` of src/optimizer/robust_optimizer.cpp: the join tree grown from the largest table.
pub mod Choice
pub mod Joinable
pub mod Laws
use robust.Prelude.{
  ℕ, zero, suc, ◌+◌, ◌-◌, ◌*◌, ◌/◌, ◌%◌, ◌^◌, ◌≤◌, ◌<◌, min, max, ◌≡◌, refl, sym, ap, ◌∙◌, subst,
  ◌≢◌, ◌↔◌, ◌⊎◌, inl, inr, Bool, true, false, not, ◌&&◌, ◌||◌, Option, none, some, List, [], ◌∷◌,
  ◌++◌, map, foldl, arith, ltb, leb, ◌==◌, if◌then◌else◌, ltb→lt, lt→ltb, ==_iff, ==_refl,
  Bool-cases, and-eq-true, Option-cases, ◌>>=◌, >>=-eq-some, length, get_elem?, get_or, set,
  replicate, is_empty, tail, length-append, length-set, In, All, All-In, In-append,
}
use robust.Column.{JoinEdge}
use robust.Table.{TableInfo, TableManager, find_table}

-- step 1, with the largest table and its cardinality so far
pub largest_table : List TableInfo → ℕ → ℕ → ℕ
largest_table [] table max_cardinality = table
largest_table (info ∷ infos) table max_cardinality =
    let larger = largest_table infos info.table_idx info.estimated_cardinality in
    let rest = largest_table infos table max_cardinality in
    if ltb max_cardinality info.estimated_cardinality then larger else rest

unfoldable pub is_member : ℕ → List ℕ → Bool
is_member t [] = false
is_member t (n ∷ nodes) = n == t || is_member t nodes

-- `insert` of a set
unfoldable pub insert_node : ℕ → List ℕ → List ℕ
insert_node t nodes = if is_member t nodes then nodes else t ∷ nodes

-- exactly one end is in the tree
unfoldable pub is_crossing : List ℕ → JoinEdge → Bool
is_crossing nodes e =
    (is_member e.table_a nodes && not (is_member e.table_b nodes))
    || (not (is_member e.table_a nodes) && is_member e.table_b nodes)

-- the smaller cardinality of the ends, if both tables are known
unfoldable pub edge_cardinality : TableManager → JoinEdge → Option ℕ
edge_cardinality m e = elim (find_table e.table_a m.table_lookup) [
  | none ↦ none
  | some a ↦ elim (find_table e.table_b m.table_lookup) [
    | none ↦ none
    | some b ↦ some (min a.estimated_cardinality b.estimated_cardinality)
  ]
]

pub record Best : Type 0 where
  pub best_edge : Option JoinEdge
  pub max_weight : ℕ
  pub max_cardinality : ℕ

-- the test for a better edge
unfoldable pub is_better : Best → JoinEdge → ℕ → Bool
is_better best e c =
    ltb best.max_weight e.weight || (e.weight == best.max_weight && ltb best.max_cardinality c)

unfoldable pub consider : TableManager → List ℕ → Best → JoinEdge → Best
consider m nodes best e = elim (edge_cardinality m e) [
  | none ↦ best
  | some c ↦
      if is_crossing nodes e && is_better best e c
      then (record { best_edge = some e; max_weight = e.weight; max_cardinality = c })
      else best
]

unfoldable pub best_of : TableManager → List ℕ → Best → List JoinEdge → Best
best_of m nodes best [] = best
best_of m nodes best (e ∷ es) = best_of m nodes (consider m nodes best e) es

abbrev pub no_best : Best
no_best = record { best_edge = none; max_weight = 0; max_cardinality = 0 }

-- step 2, the loop over a tree with these nodes, on fuel
unfoldable pub grow : ℕ → TableManager → List JoinEdge → List ℕ → Option (List JoinEdge)
grow zero m edges nodes = none
grow (suc fuel) m edges nodes =
    let grown : Option (List JoinEdge) = elim ((best_of m nodes no_best edges).best_edge) [
      | none ↦ some []
      | some e ↦ grow fuel m edges (insert_node e.table_b (insert_node e.table_a nodes)) >>= λ rest.
          some (e ∷ rest)
    ] in
    if ltb (length nodes) (length m.table_ops) && not (is_empty edges) then grown else some []

-- Each round adds a node, so there are fewer rounds than tables.
unfoldable pub largest_root : TableManager → List JoinEdge → Option (List JoinEdge)
largest_root m edges = grow (suc (length m.table_ops)) m edges (largest_table m.table_ops 0 0 ∷ [])
