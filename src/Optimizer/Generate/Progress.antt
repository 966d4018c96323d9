-- ===== src/Optimizer/Generate/Progress.antt =====
-- How the maps of the generators of src/optimizer/robust_optimizer.cpp grow: the probes that an edge
-- asks for, and the nodes of a level.
use robust.Prelude.{
  ℕ, zero, suc, ◌+◌, ◌≤◌, ◌<◌, max, ◌≡◌, refl, sym, ap, subst, ◌⊎◌, inl, inr, true, false, some,
  List, [], ◌∷◌, arith, ==_refl, Bool-cases, Option-cases, >>=-eq-some, length, get_elem?, In,
}
use mathlib.Core.Option.{some-injective}
use robust.Column.{ColumnBinding, FilterOperation}
use robust.Optimizer.Stack.{OpMap}
use robust.Optimizer.Dag.{DagEdge, DagNode}
use robust.Optimizer.Dag.Links.{table_at, IsEdge, IsLinked, IsParallel}
use robust.Optimizer.Operations.{push_op, count_ops, op_at}
use robust.Optimizer.Operations.Laws.{op_at-push_op, op_at-pushed_op}
use robust.Optimizer.Generate.{is_at_level, nodes_at, max_level, indices}
use robust.Optimizer.Generate.Sound.{IsHome, IsSoundOps}

-- Some PROBE_FILTER of the map is for these columns of the table.
pub record IsProbed (m : OpMap) (table : ℕ) (columns : List ColumnBinding) : Type 0 where
  pub key : ℕ
  pub place : ℕ
  pub probe : FilterOperation
  pub found : op_at m key place ≡ some probe
  pub probes : probe.is_create ≡ false
  pub same_table : probe.probe_table_idx ≡ table
  pub same_columns : probe.probe_columns ≡ columns

pub IsProbed-push_op :
    (m : OpMap) (k t : ℕ) (op : FilterOperation) (cols : List ColumnBinding)
    → IsProbed m t cols
    → IsProbed (push_op k op m) t cols
IsProbed-push_op m k t op cols w = record {
  key = w.key;
  place = w.place;
  probe = w.probe;
  found = op_at-push_op m k w.key w.place op w.probe w.found;
  probes = w.probes;
  same_table = w.same_table;
  same_columns = w.same_columns;
}

pub pushed-IsProbed :
    (m : OpMap) (k : ℕ) (op : FilterOperation)
    → op.is_create ≡ false
    → IsProbed (push_op k op m) op.probe_table_idx op.probe_columns
pushed-IsProbed m k op h = record {
  key = k;
  place = count_ops k m;
  probe = op;
  found = op_at-pushed_op m k op;
  probes = h;
  same_table = refl;
  same_columns = refl;
}

-- The map `m'` is sound, has the probes that `m` had, and those that are wanted.
pub record IsProgress (nodes : List DagNode) (m m' : OpMap)
    (wanted : ℕ → List ColumnBinding → Type 0) : Type 0 where
  pub sound : IsSoundOps nodes m'
  pub kept : (t : ℕ) (cols : List ColumnBinding) → IsProbed m t cols → IsProbed m' t cols
  pub done : (t : ℕ) (cols : List ColumnBinding) → wanted t cols → IsProbed m' t cols

pub IsProgress_start :
    (nodes : List DagNode) (m : OpMap) (wanted : ℕ → List ColumnBinding → Type 0)
    → ((t : ℕ) (cols : List ColumnBinding) → wanted t cols → ⊥)
    → IsSoundOps nodes m
    → IsProgress nodes m m wanted
IsProgress_start nodes m wanted never w = record {
  sound = w;
  kept = λ t cols p. p;
  done = λ t cols p. absurd (never t cols p);
}

pub IsProgress_then :
    (nodes : List DagNode) (a b c : OpMap) (first second wanted : ℕ → List ColumnBinding → Type 0)
    → ((t : ℕ) (cols : List ColumnBinding) → wanted t cols → first t cols ⊎ second t cols)
    → IsProgress nodes a b first
    → IsProgress nodes b c second
    → IsProgress nodes a c wanted
IsProgress_then nodes a b c first second wanted split v w = record {
  sound = w.sound;
  kept = λ t cols p. w.kept t cols (v.kept t cols p);
  done = λ t cols p. elim (split t cols p) [
    | inl q ↦ w.kept t cols (v.done t cols q)
    | inr q ↦ w.done t cols q
  ];
}

abbrev pub IsWanted : ℕ → List ColumnBinding → ℕ → List ColumnBinding → Type 0
IsWanted table columns t cols = (table ≡ t) × (columns ≡ cols)

nodes_at-here :
    (l : ℕ) (n : DagNode) (nodes : List DagNode)
    → is_at_level l n ≡ true
    → nodes_at l (n ∷ nodes) ≡ n ∷ nodes_at l nodes
unfolding nodes_at
nodes_at-here l n nodes h = ground (arith, h)

nodes_at-other :
    (l : ℕ) (n : DagNode) (nodes : List DagNode)
    → is_at_level l n ≡ false
    → nodes_at l (n ∷ nodes) ≡ nodes_at l nodes
unfolding nodes_at
nodes_at-other l n nodes h = ground (arith, h)

pub In-nodes_at :
    (l : ℕ) (nodes : List DagNode) (n : DagNode) → In n (nodes_at l nodes) → In n nodes
unfolding nodes_at
In-nodes_at l [] n i = i
In-nodes_at l (m ∷ nodes) n i = elim (Bool-cases (is_at_level l m)) [
  | inl h ↦ elim (subst (In n) (nodes_at-here l m nodes h) i) [
    | inl e ↦ inl e
    | inr i' ↦ inr (In-nodes_at l nodes n i')
  ]
  | inr h ↦ inr (In-nodes_at l nodes n (subst (In n) (nodes_at-other l m nodes h) i))
]

pub nodes_at-In :
    (l : ℕ) (nodes : List DagNode) (n : DagNode)
    → In n nodes
    → n.level ≡ some l
    → In n (nodes_at l nodes)
unfolding is_at_level
nodes_at-In l [] n i e = absurd i
nodes_at-In l (m ∷ nodes) n (inl same) e =
    let here : is_at_level l m ≡ true =
      ground (arith, ==_refl l, e, ap (λ (x : DagNode). x.level) same) in
    subst (In n) (sym (nodes_at-here l m nodes here)) (inl same)
nodes_at-In l (m ∷ nodes) n (inr i) e = elim (Bool-cases (is_at_level l m)) [
  | inl h ↦ subst (In n) (sym (nodes_at-here l m nodes h)) (inr (nodes_at-In l nodes n i e))
  | inr h ↦ subst (In n) (sym (nodes_at-other l m nodes h)) (nodes_at-In l nodes n i e)
]

max_level-best : (nodes : List DagNode) (best : ℕ) → best ≤ max_level nodes best
unfolding max_level
max_level-best [] best = omega arith
max_level-best (n ∷ nodes) best = elim (Option-cases n.level) [
  | inl e ↦ ground (arith, e, max_level-best nodes best)
  | inr (l, e) ↦ ground (arith, e, max_level-best nodes (max best l))
]

pub level_le-max_level :
    (nodes : List DagNode) (best : ℕ) (n : DagNode) (l : ℕ)
    → In n nodes
    → n.level ≡ some l
    → l ≤ max_level nodes best
unfolding max_level
level_le-max_level [] best n l i e = absurd i
level_le-max_level (m ∷ nodes) best n l (inl same) e =
    ground (arith, e, ap (λ (x : DagNode). x.level) same, max_level-best nodes (max best l))
level_le-max_level (m ∷ nodes) best n l (inr i) e = level_le-max_level nodes _ n l i e

pub In-place :
    (nodes : List DagNode) (n : DagNode) → In n nodes → (i : ℕ) × (get_elem? nodes i ≡ some n)
In-place [] n i = absurd i
In-place (m ∷ nodes) n (inl same) = (0, ap some (sym same))
In-place (m ∷ nodes) n (inr i) = let (j, e) = In-place nodes n i in (suc j, e)

pub In-IsHome :
    (nodes : List DagNode) (n : DagNode) → In n nodes → IsHome nodes n.table_op n.table_idx
In-IsHome nodes n i =
    let (j, e) = In-place nodes n i in
    record { place = j; home = n; found = e; operator = refl; index = refl }

pub In-IsParallel :
    (nodes : List DagNode) (n : DagNode)
    → IsLinked nodes
    → In n nodes
    → IsParallel nodes n.table_idx n.parents n.edges_to_parents
unfolding IsLinked
In-IsParallel nodes n w i = let (j, e) = In-place nodes n i in w j n e

-- the node of a parent's table
pub parent-IsHome :
    (nodes : List DagNode) (p t : ℕ)
    → table_at nodes p ≡ some t
    → (parent : DagNode) × (get_elem? nodes p ≡ some parent)
      × (parent.table_idx ≡ t)
      × IsHome nodes parent.table_op parent.table_idx
unfolding table_at
parent-IsHome nodes p t e =
    let (n, at, is) = >>=-eq-some (get_elem? nodes p) _ e in
    (
      n,
      at,
      some-injective n.table_idx t is,
      record { place = p; home = n; found = at; operator = refl; index = refl },
    )

-- An edge and the parent beside it.
pub IsParallel-at :
    (nodes : List DagNode) (t : ℕ) (ps : List ℕ) (es : List DagEdge) (i : ℕ)
    → IsParallel nodes t ps es
    → i < length es
    → (e : DagEdge) × (p : ℕ) × (get_elem? es i ≡ some e)
      × (get_elem? ps i ≡ some p)
      × IsEdge nodes t p e
unfolding IsParallel
IsParallel-at nodes t [] [] i w lt = absurd (ground (arith, lt))
IsParallel-at nodes t [] (e ∷ es) i w lt = absurd w
IsParallel-at nodes t (p ∷ ps) [] i w lt = absurd w
IsParallel-at nodes t (p ∷ ps) (e ∷ es) zero w lt = (e, p, refl, refl, w.0)
IsParallel-at nodes t (p ∷ ps) (e ∷ es) (suc i) w lt =
    IsParallel-at nodes t ps es i w.1 (omega (arith, lt))

pub In-indices : (es : List DagEdge) (j x : ℕ) → In x (indices j es) → x < j + length es
unfolding indices
In-indices [] j x i = absurd i
In-indices (e ∷ es) j x (inl same) = ground (arith, same)
In-indices (e ∷ es) j x (inr i) = omega (arith, In-indices es (suc j) x i)

indices-In :
    (es : List DagEdge) (j : ℕ) (e : DagEdge)
    → In e es
    → (i : ℕ) × In (j + i) (indices j es) × (get_elem? es i ≡ some e)
unfolding indices
indices-In [] j e i = absurd i
indices-In (d ∷ es) j e (inl same) = (0, inl (omega arith), ap some (sym same))
indices-In (d ∷ es) j e (inr i) =
    let (k, m, at) = indices-In es (suc j) e i in
    (suc k, inr (subst (λ (x : ℕ). In x (indices (suc j) es)) (omega arith) m), at)

pub index_of :
    (es : List DagEdge) (e : DagEdge)
    → In e es
    → (i : ℕ) × In i (indices 0 es) × (get_elem? es i ≡ some e)
index_of es e m =
    let (i, i_in, at) = indices-In es 0 e m in
    (i, subst (λ (x : ℕ). In x (indices 0 es)) (omega arith) i_in, at)
