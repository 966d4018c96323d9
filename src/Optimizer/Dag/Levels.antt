-- ===== src/Optimizer/Dag/Levels.antt =====
-- The levels of the nodes: `BuildPhysicalPlanDAG` of src/optimizer/robust_optimizer.cpp, whose loop
-- `FlipRootsToLeaves` of the same file repeats.
pub mod Laws
pub mod Ranks
pub mod Settled
pub mod Reached
use robust.Prelude.{
  ℕ, zero, suc, ◌+◌, ◌-◌, ◌*◌, ◌/◌, ◌%◌, ◌^◌, ◌≤◌, ◌<◌, min, max, ◌≡◌, refl, sym, ap, ◌∙◌, subst,
  ◌≢◌, ◌↔◌, ◌⊎◌, inl, inr, Bool, true, false, not, ◌&&◌, ◌||◌, Option, none, some, List, [], ◌∷◌,
  ◌++◌, map, foldl, arith, ltb, leb, ◌==◌, if◌then◌else◌, ltb→lt, lt→ltb, ==_iff, ==_refl,
  Bool-cases, and-eq-true, Option-cases, ◌>>=◌, >>=-eq-some, length, get_elem?, get_or, set,
  replicate, is_empty, tail, length-append, length-set, In, All, All-In, In-append,
}
use robust.Plan.{Plan}
use robust.Table.{TableManager}
use robust.Optimizer.Extract.{Renames}
use robust.Optimizer.Dag.{DagNode, DagState, change_node, dag_dfs}
use robust.Optimizer.UnionFind.{Parents}

unfoldable pub level_at : List DagNode → ℕ → Option ℕ
level_at nodes p = get_elem? nodes p >>= λ n. n.level

unfoldable pub parents_at : List DagNode → ℕ → Option (List ℕ)
parents_at nodes i = get_elem? nodes i >>= λ n. some n.parents

unfoldable pub put_level : ℕ → Option ℕ → List DagNode → List DagNode
put_level i l nodes = change_node i (λ (n : DagNode). record n { level = l }) nodes

-- The greatest level of the parents and `best`, where all are set.
unfoldable pub max_parent : List DagNode → List ℕ → ℕ → Option ℕ
max_parent nodes [] best = some best
max_parent nodes (p ∷ parents) best =
    level_at nodes p >>= λ l. max_parent nodes parents (max best l)

-- Nothing for a root, which has no parents. Where there is a parent the greatest level is not
-- negative, so the search may start at 0 for the -1 of the code.
unfoldable pub new_level : List DagNode → List ℕ → Option ℕ
new_level nodes [] = none
new_level nodes (p ∷ parents) = max_parent nodes (p ∷ parents) 0 >>= λ m. some (suc m)

unfoldable pub is_level : ℕ → Option ℕ → Bool
is_level l none = false
is_level l (some k) = k == l

-- one round of the loop over the nodes, with the flag `changed`
unfoldable pub settle_node : ℕ → List DagNode × Bool → List DagNode × Bool
settle_node i (nodes, changed) = elim (parents_at nodes i >>= λ ps. new_level nodes ps) [
  | none ↦ (nodes, changed)
  | some l ↦
      if is_level l (level_at nodes i) then (nodes, changed) else (put_level i (some l) nodes, true)
]

-- the loop over the nodes, of which `k` are left from the position `i`
unfoldable pub sweep : ℕ → ℕ → List DagNode × Bool → List DagNode × Bool
sweep zero i s = s
sweep (suc k) i s = sweep k (suc i) (settle_node i s)

-- the loop until nothing changes, on fuel
unfoldable pub settle : ℕ → List DagNode → Option (List DagNode)
settle zero nodes = none
settle (suc fuel) nodes =
    let r = sweep (length nodes) 0 (nodes, false) in
    let rest = settle fuel r.0 in if r.1 then rest else some r.0

unfoldable pub start_level : DagNode → DagNode
start_level n = record n { level = if is_empty n.parents then some 0 else none }

-- Each sweep that changes a level raises one, and a level stays below the number of the nodes.
unfoldable pub compute_levels : List DagNode → Option (List DagNode)
compute_levels nodes = settle (suc (length nodes * length nodes)) (map start_level nodes)

unfoldable pub build_physical_plan_dag :
    TableManager → Renames → Plan → Parents → Option (List DagNode × Parents)
build_physical_plan_dag m renames p uf_parent =
    dag_dfs m renames p (record { all_nodes = []; node_map = []; uf_parent = uf_parent }) >>= λ s.
    compute_levels s.all_nodes >>= λ nodes. some (nodes, s.uf_parent)
