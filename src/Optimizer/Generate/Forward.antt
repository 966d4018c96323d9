-- ===== src/Optimizer/Generate/Forward.antt =====
-- The forward pass of `GenerateStageModificationsFromDAG` of src/optimizer/robust_optimizer.cpp.
use robust.Prelude.{
  ℕ, zero, suc, ◌<◌, ◌≡◌, refl, sym, ap, ◌∙◌, subst, inl, inr, Bool, true, some, List, [], ◌∷◌,
  arith, ◌==◌, ==_iff, Bool-cases, length, In,
}
use robust.Column.{ColumnBinding}
use robust.Optimizer.Dag.{DagEdge, DagNode}
use robust.Optimizer.Dag.Links.{IsEdge, IsLinked, IsParallel}
use robust.Optimizer.Operations.{FilterEnd, Emitted, operation, emit_pair, push_op}
use robust.Optimizer.Generate.{nodes_at, end_of, forward_edges, forward_nodes, forward_levels}
use robust.Optimizer.Generate.Sound.{IsHome, IsSoundOps, emit_pair-IsSoundOps}
use robust.Optimizer.Generate.Progress.{
  IsProbed, IsProgress, IsProgress_start, IsProgress_then, IsWanted, IsProbed-push_op,
  pushed-IsProbed, In-nodes_at, nodes_at-In, In-IsHome, In-IsParallel, parent-IsHome,
}

pub emit_pair-IsProgress :
    (nodes : List DagNode) (forward : Bool) (build probe : FilterEnd) (s : Emitted)
    → length build.columns ≡ length probe.columns
    → IsHome nodes build.key build.table
    → IsHome nodes probe.key probe.table
    → IsSoundOps nodes s.ops
    → IsProgress nodes s.ops
        (emit_pair forward build probe s).ops
        (IsWanted probe.table probe.columns)
unfolding emit_pair operation
emit_pair-IsProgress nodes forward build probe s even at_build at_probe w = record {
  sound = emit_pair-IsSoundOps nodes forward build probe s even at_build at_probe w;
  kept = λ t cols p.
      IsProbed-push_op _ probe.key t _ cols (IsProbed-push_op s.ops build.key t _ cols p);
  done = λ t cols h.
      subst (λ (x : ℕ). IsProbed (emit_pair forward build probe s).ops x cols) h.0
        (subst (IsProbed (emit_pair forward build probe s).ops probe.table) h.1 (
          pushed-IsProbed (push_op build.key (operation true forward build probe s.sequence) s.ops)
            probe.key _ refl));
}

-- the probes that edges ask for at their parents
abbrev pub IsEdgeWanted : List DagEdge → ℕ → List ColumnBinding → Type 0
IsEdgeWanted es t cols = (e : DagEdge) × In e es × IsWanted e.parent_table e.parent_cols t cols

module _ (nodes : List DagNode) where
  forward_edges-IsProgress :
      (child : DagNode) (ps : List ℕ) (es : List DagEdge) (s : Emitted)
      → IsParallel nodes child.table_idx ps es
      → IsHome nodes child.table_op child.table_idx
      → IsSoundOps nodes s.ops
      → (s' : Emitted) × (forward_edges nodes child ps es s ≡ some s')
        × IsProgress nodes s.ops s'.ops (IsEdgeWanted es)
  unfolding forward_edges IsParallel end_of
  forward_edges-IsProgress child [] [] s w home sound =
      (s, refl, IsProgress_start nodes s.ops _ (λ t cols h. h.1) sound)
  forward_edges-IsProgress child [] (e ∷ es) s w home sound = absurd w
  forward_edges-IsProgress child (p ∷ ps) [] s w home sound = absurd w
  forward_edges-IsProgress child (p ∷ ps) (e ∷ es) s w home sound =
      let edge : IsEdge nodes child.table_idx p e = w.0 in
      let (parent, at, same, parent_home) = parent-IsHome nodes p e.parent_table edge.parent in
      let first =
        emit_pair-IsProgress nodes true (end_of child e.child_cols) (end_of parent e.parent_cols) s
          (sym edge.paired) home parent_home sound in
      let (s', ran, rest) =
        forward_edges-IsProgress child ps es
          (emit_pair true (end_of child e.child_cols) (end_of parent e.parent_cols) s) w.1 home
          first.sound in
      (
        s',
        ground (arith, at, ran),
        IsProgress_then nodes _ _ _ _ _ _
            (λ t cols h. elim h.1 [
              | inl eq ↦ inl (
                same ∙ ap (λ (x : DagEdge). x.parent_table) (sym eq) ∙ h.2.0,
                ap (λ (x : DagEdge). x.parent_cols) (sym eq) ∙ h.2.1,
              )
              | inr i ↦ inr (h.0, i, h.2)
            ])
            first rest,
      )

  abbrev IsNodeWanted : List DagNode → ℕ → List ColumnBinding → Type 0
  IsNodeWanted ns t cols = (n : DagNode) × In n ns × IsEdgeWanted n.edges_to_parents t cols

  forward_nodes-IsProgress :
      (ns : List DagNode) (s : Emitted)
      → IsLinked nodes
      → ((n : DagNode) → In n ns → In n nodes)
      → IsSoundOps nodes s.ops
      → (s' : Emitted) × (forward_nodes nodes ns s ≡ some s')
        × IsProgress nodes s.ops s'.ops (IsNodeWanted ns)
  unfolding forward_nodes
  forward_nodes-IsProgress [] s w inside sound =
      (s, refl, IsProgress_start nodes s.ops _ (λ t cols h. h.1) sound)
  forward_nodes-IsProgress (n ∷ ns) s w inside sound =
      let at = inside n (inl refl) in
      let (s₁, ran₁, first) =
        forward_edges-IsProgress n n.parents n.edges_to_parents s (In-IsParallel nodes n w at)
          (In-IsHome nodes n at) sound in
      let (s', ran, rest) =
        forward_nodes-IsProgress ns s₁ w (λ m i. inside m (inr i)) first.sound in
      (
        s',
        ground (arith, ran₁, ran),
        IsProgress_then nodes _ _ _ _ _ _
            (λ t cols h. elim h.1 [
              | inl eq ↦
                  inl (subst (λ (x : DagNode). IsEdgeWanted x.edges_to_parents t cols) eq h.2)
              | inr i ↦ inr (h.0, i, h.2)
            ])
            first rest,
      )

  -- the probes of the nodes on the levels from 1 up to a level
  abbrev pub IsLevelWanted : ℕ → ℕ → List ColumnBinding → Type 0
  IsLevelWanted top t cols =
      (n : DagNode) × (l : ℕ) × In n nodes
      × (n.level ≡ some (suc l))
      × (l < top)
      × IsEdgeWanted n.edges_to_parents t cols

  pub forward_levels-IsProgress :
      (level : ℕ) (s : Emitted)
      → IsLinked nodes
      → IsSoundOps nodes s.ops
      → (s' : Emitted) × (forward_levels nodes level s ≡ some s')
        × IsProgress nodes s.ops s'.ops (IsLevelWanted level)
  unfolding forward_levels
  forward_levels-IsProgress zero s w sound =
      (s, refl, IsProgress_start nodes s.ops _ (λ t cols h. ground (arith, h.4)) sound)
  forward_levels-IsProgress (suc level) s w sound =
      let (s₁, ran₁, first) =
        forward_nodes-IsProgress (nodes_at (suc level) nodes) s w
          (λ n i. In-nodes_at (suc level) nodes n i) sound in
      let (s', ran, rest) = forward_levels-IsProgress level s₁ w first.sound in
      (
        s',
        ground (arith, ran₁, ran),
        IsProgress_then nodes _ _ _ _ _ _
            (λ t cols h. elim (Bool-cases (h.1 == level)) [
              | inl eq ↦ inl (
                h.0,
                nodes_at-In (suc level) nodes h.0 h.2
                    (h.3 ∙ ap (λ (x : ℕ). some (suc x)) ((==_iff h.1 level).0 eq)),
                h.5,
              )
              | inr ne ↦ inr (h.0, h.1, h.2, h.3, ground (arith, ne, h.4), h.5)
            ])
            first rest,
      )
