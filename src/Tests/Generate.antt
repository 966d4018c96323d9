-- ===== src/Tests/Generate.antt =====
-- Examples of the theorems on the generation of the stages.
use robust.Prelude.{
  ℕ, zero, suc, ◌*◌, ◌≡◌, refl, subst, ◌↔◌, ◌⊎◌, inl, inr, some, List, [], ◌∷◌, arith, leb,
  if◌then◌else◌, Bool-cases, In,
}
use mathlib.Core.Option.{some-injective}
use robust.Column.{ColumnBinding}
use robust.Optimizer.Stack.{OpMap}
use robust.Optimizer.UnionFind.{Parents}
use robust.Optimizer.UnionFind.Closure.{empty-IsClasses}
use robust.Optimizer.Dag.{DagEdge, DagNode}
use robust.Optimizer.Dag.Links.{IsEdge, IsLinked, IsParallel, table_at}
use robust.Optimizer.Generate.{Sort, generate_from_dag}
use robust.Optimizer.Generate.Result.{IsGenerated, generate_from_dag-IsGenerated}

insert_sorted : (ℕ → ℕ) → ℕ → List ℕ → List ℕ
insert_sorted key x [] = x ∷ []
insert_sorted key x (y ∷ ys) =
    let rest = insert_sorted key x ys in if leb (key x) (key y) then x ∷ y ∷ ys else y ∷ rest

insertion_sort : (ℕ → ℕ) → List ℕ → List ℕ
insertion_sort key [] = []
insertion_sort key (x ∷ xs) = insert_sorted key x (insertion_sort key xs)

In-insert_sorted :
    (key : ℕ → ℕ) (x z : ℕ) (ys : List ℕ) → In z (insert_sorted key x ys) ↔ ((z ≡ x) ⊎ In z ys)
unfolding insert_sorted
In-insert_sorted key x z [] = ground arith
In-insert_sorted key x z (y ∷ ys) = elim (Bool-cases (leb (key x) (key y))) [
  | inl h ↦
      subst (λ (l : List ℕ). In z l ↔ ((z ≡ x) ⊎ In z (y ∷ ys))) {x = x ∷ y ∷ ys}
        (ground (arith, h)) (λ i. i, λ i. i)
  | inr h ↦
      subst (λ (l : List ℕ). In z l ↔ ((z ≡ x) ⊎ In z (y ∷ ys))) {x = y ∷ insert_sorted key x ys}
        (ground (arith, h)) (ground (arith, In-insert_sorted key x z ys))
]

In-insertion_sort : (key : ℕ → ℕ) (xs : List ℕ) (z : ℕ) → In z (insertion_sort key xs) ↔ In z xs
unfolding insertion_sort
In-insertion_sort key [] z = ground arith
In-insertion_sort key (x ∷ xs) z =
    ground (arith, In-insert_sorted key x z (insertion_sort key xs), In-insertion_sort key xs z)

std_sort : Sort
std_sort = record { sort = insertion_sort; In-sort = In-insertion_sort }

abbrev binding : ℕ → ℕ → ColumnBinding
binding t c = record { table_index = t; column_index = c }

abbrev edge_between : ℕ → ℕ → DagEdge
edge_between parent child = record {
  parent_table = parent;
  child_table = child;
  parent_cols = binding parent 0 ∷ [];
  child_cols = binding child 0 ∷ [];
}

abbrev level_node : ℕ → List ℕ → List ℕ → List DagEdge → ℕ → DagNode
level_node t children parents edges level = record {
  table_idx = t;
  table_op = t;
  cardinality = 10 * t;
  children = children;
  parents = parents;
  edges_to_parents = edges;
  level = some level;
}

abbrev star : List DagNode
star =
    level_node 1 (1 ∷ 2 ∷ []) [] [] 0
    ∷ level_node 2 [] (0 ∷ []) (edge_between 1 2 ∷ []) 1
    ∷ level_node 3 [] (0 ∷ []) (edge_between 1 3 ∷ []) 1
    ∷ []

edge_between-IsEdge : (child : ℕ) → IsEdge star child 0 (edge_between 1 child)
unfolding table_at
edge_between-IsEdge child = record {
  parent = refl;
  child = refl;
  paired = refl;
  some_column = omega arith;
}

star-IsLinked : IsLinked star
unfolding IsLinked IsParallel
star-IsLinked zero n e =
    subst (λ (x : DagNode). IsParallel star x.table_idx x.parents x.edges_to_parents)
      (some-injective (level_node 1 (1 ∷ 2 ∷ []) [] [] 0) n e) tt
star-IsLinked (suc zero) n e =
    subst (λ (x : DagNode). IsParallel star x.table_idx x.parents x.edges_to_parents)
      (some-injective (level_node 2 [] (0 ∷ []) (edge_between 1 2 ∷ []) 1) n e)
      (edge_between-IsEdge 2, tt)
star-IsLinked (suc (suc zero)) n e =
    subst (λ (x : DagNode). IsParallel star x.table_idx x.parents x.edges_to_parents)
      (some-injective (level_node 3 [] (0 ∷ []) (edge_between 1 3 ∷ []) 1) n e)
      (edge_between-IsEdge 3, tt)
star-IsLinked (suc (suc (suc i))) n e = absurd (ground (arith, e))

generate_from_dag-IsGenerated_example :
    (forward backward : OpMap) × (uf_parent' : Parents) × (generate_from_dag std_sort star []
      ≡ some (forward, backward, uf_parent'))
    × IsGenerated star (λ c. c) forward backward uf_parent'
generate_from_dag-IsGenerated_example =
    generate_from_dag-IsGenerated std_sort star [] (λ c. c) star-IsLinked empty-IsClasses
