-- ===== src/Optimizer/Dag/Links.antt =====
-- The parents and the edges of a node of src/optimizer/robust_optimizer.hpp are parallel vectors.
pub mod Build
pub mod Visit
pub mod Graph
use robust.Prelude.{
  ℕ, zero, suc, ◌+◌, ◌-◌, ◌*◌, ◌/◌, ◌%◌, ◌^◌, ◌≤◌, ◌<◌, min, max, ◌≡◌, refl, sym, ap, ◌∙◌, subst,
  ◌≢◌, ◌↔◌, ◌⊎◌, inl, inr, Bool, true, false, not, ◌&&◌, ◌||◌, Option, none, some, List, [], ◌∷◌,
  ◌++◌, map, foldl, arith, ltb, leb, ◌==◌, if◌then◌else◌, ltb→lt, lt→ltb, ==_iff, ==_refl,
  Bool-cases, and-eq-true, Option-cases, ◌>>=◌, >>=-eq-some, length, get_elem?, get_or, set,
  replicate, is_empty, tail, length-append, length-set, In, All, All-In, In-append,
}
use mathlib.Core.Option.{some-injective}
use robust.Optimizer.Dag.{DagEdge, DagNode, change_node}

unfoldable pub table_at : List DagNode → ℕ → Option ℕ
table_at nodes i = get_elem? nodes i >>= λ n. some n.table_idx

-- The edge leads from the table `t` to that of the node at `p`, by as many columns on both sides,
-- at least one.
pub record IsEdge (nodes : List DagNode) (t p : ℕ) (e : DagEdge) : Type 0 where
  pub parent : table_at nodes p ≡ some e.parent_table
  pub child : e.child_table ≡ t
  pub paired : length e.parent_cols ≡ length e.child_cols
  pub some_column : 0 < length e.parent_cols

-- The edges are those to the parents, one for each and in their order.
unfoldable pub IsParallel : List DagNode → ℕ → List ℕ → List DagEdge → Type 0
IsParallel nodes t [] [] = Unit {0}
IsParallel nodes t [] (e ∷ es) = ⊥
IsParallel nodes t (p ∷ ps) [] = ⊥
IsParallel nodes t (p ∷ ps) (e ∷ es) = IsEdge nodes t p e × IsParallel nodes t ps es

unfoldable pub IsLinked : List DagNode → Type 0
IsLinked nodes =
    (i : ℕ) (n : DagNode)
    → get_elem? nodes i ≡ some n
    → IsParallel nodes n.table_idx n.parents n.edges_to_parents

pub get_elem?-change_node :
    (nodes : List DagNode) (i j : ℕ) (f : DagNode → DagNode)
    → get_elem? (change_node i f nodes) j
      ≡ (if i == j then (get_elem? nodes j >>= λ n. some (f n)) else get_elem? nodes j)
unfolding change_node
get_elem?-change_node [] i j f = ground arith
get_elem?-change_node (n ∷ nodes) zero zero f = refl
get_elem?-change_node (n ∷ nodes) zero (suc j) f = ground arith
get_elem?-change_node (n ∷ nodes) (suc i) zero f = ground arith
get_elem?-change_node (n ∷ nodes) (suc i) (suc j) f =
    ground (arith, get_elem?-change_node nodes i j f)

-- The nodes of a list and of another one have the same tables.
abbrev pub HasSameTables : List DagNode → List DagNode → Type 0
HasSameTables nodes nodes' = (p t : ℕ) → table_at nodes p ≡ some t → table_at nodes' p ≡ some t

pub table_at-change_node :
    (nodes : List DagNode) (i : ℕ) (f : DagNode → DagNode)
    → ((n : DagNode) → (f n).table_idx ≡ n.table_idx)
    → HasSameTables nodes (change_node i f nodes)
unfolding table_at change_node
table_at-change_node [] i f h p t e = e
table_at-change_node (n ∷ nodes) zero f h zero t e = ap some (h n) ∙ e
table_at-change_node (n ∷ nodes) zero f h (suc p) t e = e
table_at-change_node (n ∷ nodes) (suc i) f h zero t e = e
table_at-change_node (n ∷ nodes) (suc i) f h (suc p) t e = table_at-change_node nodes i f h p t e

pub IsEdge-HasSameTables :
    (nodes nodes' : List DagNode) (t p : ℕ) (e : DagEdge)
    → HasSameTables nodes nodes'
    → IsEdge nodes t p e
    → IsEdge nodes' t p e
IsEdge-HasSameTables nodes nodes' t p e h w = record {
  parent = h p e.parent_table w.parent;
  child = w.child;
  paired = w.paired;
  some_column = w.some_column;
}

pub IsParallel-HasSameTables :
    (nodes nodes' : List DagNode) (t : ℕ) (ps : List ℕ) (es : List DagEdge)
    → HasSameTables nodes nodes'
    → IsParallel nodes t ps es
    → IsParallel nodes' t ps es
unfolding IsParallel
IsParallel-HasSameTables nodes nodes' t [] [] h w = tt
IsParallel-HasSameTables nodes nodes' t [] (e ∷ es) h w = w
IsParallel-HasSameTables nodes nodes' t (p ∷ ps) [] h w = w
IsParallel-HasSameTables nodes nodes' t (p ∷ ps) (e ∷ es) h w = (
  IsEdge-HasSameTables nodes nodes' t p e h w.0,
  IsParallel-HasSameTables nodes nodes' t ps es h w.1,
)

pub IsParallel-append :
    (nodes : List DagNode) (t : ℕ) (ps : List ℕ) (es : List DagEdge) (p : ℕ) (e : DagEdge)
    → IsParallel nodes t ps es
    → IsEdge nodes t p e
    → IsParallel nodes t (ps ++ p ∷ []) (es ++ e ∷ [])
unfolding IsParallel
IsParallel-append nodes t [] [] p e w v = (v, tt)
IsParallel-append nodes t [] (d ∷ es) p e w v = absurd w
IsParallel-append nodes t (q ∷ ps) [] p e w v = absurd w
IsParallel-append nodes t (q ∷ ps) (d ∷ es) p e w v =
    (w.0, IsParallel-append nodes t ps es p e w.1 v)

-- One node is changed, and its vectors stay parallel.
pub change_node-IsLinked :
    (nodes : List DagNode) (i : ℕ) (f : DagNode → DagNode)
    → ((n : DagNode) → (f n).table_idx ≡ n.table_idx)
    → ((n : DagNode)
        → get_elem? nodes i ≡ some n
        → IsParallel nodes n.table_idx n.parents n.edges_to_parents
        → IsParallel nodes n.table_idx (f n).parents (f n).edges_to_parents)
    → IsLinked nodes
    → IsLinked (change_node i f nodes)
unfolding IsLinked
change_node-IsLinked nodes i f h step w j n e =
    let same = table_at-change_node nodes i f h in
    elim (Bool-cases (i == j)) [
      | inl eq ↦
          let e' : (get_elem? nodes j >>= λ m. some (f m)) ≡ some n =
            ground (arith, e, eq, get_elem?-change_node nodes i j f) in
          let (m, at, is) = >>=-eq-some (get_elem? nodes j) _ e' in
          let fm = some-injective (f m) n is in
          let at' : get_elem? nodes i ≡ some m = ap (get_elem? nodes) ((==_iff i j).0 eq) ∙ at in
          let own = step m at' (w i m at') in
          IsParallel-HasSameTables nodes (change_node i f nodes) n.table_idx n.parents
            n.edges_to_parents same
            (subst (λ (x : DagNode). IsParallel nodes x.table_idx x.parents x.edges_to_parents) fm
              (subst (λ (t : ℕ). IsParallel nodes t (f m).parents (f m).edges_to_parents)
                (sym (h m)) own))
      | inr ne ↦
          IsParallel-HasSameTables nodes (change_node i f nodes) n.table_idx n.parents
            n.edges_to_parents same
            (w j n (ground (arith, e, ne, get_elem?-change_node nodes i j f)))
    ]
