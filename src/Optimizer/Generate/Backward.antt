-- ===== src/Optimizer/Generate/Backward.antt =====
-- The backward pass of `GenerateStageModificationsFromDAG` of src/optimizer/robust_optimizer.cpp.
use robust.Prelude.{
  ◌==◌, ==_iff, zero, suc, ◌+◌, ◌≤◌, ℕ, ◌<◌, ◌≡◌, refl, sym, ap, ◌∙◌, subst, inl, inr, some, List,
  [], ◌∷◌, arith, Bool-cases, length, get_elem?, In,
}
use mathlib.Core.Option.{some-injective}
use robust.Column.{ColumnBinding}
use robust.Optimizer.Dag.{DagEdge, DagNode}
use robust.Optimizer.Dag.Links.{IsLinked, IsParallel}
use robust.Optimizer.Generate.{
  nodes_at, indices, parent_cardinality, backward_nodes, backward_levels, BackwardState, Sort,
  backward_edges,
}
use robust.Optimizer.Generate.Sound.{IsHome}
use robust.Optimizer.Generate.Progress.{
  In-IsHome, In-IsParallel, In-indices, nodes_at-In, In-nodes_at, index_of,
}
use robust.Optimizer.Generate.Progress.{
  In-IsParallel, In-indices, index_of, IsProgress_start, IsProgress_then, IsWanted, parent-IsHome,
  IsParallel-at,
}
use robust.Optimizer.Generate.Broadcast.{IsBackward}
use robust.Optimizer.Generate.EdgeStep.{IsAdvanced, backward_edge-IsAdvanced}

module _ (nodes : List DagNode) (rep : ColumnBinding → ColumnBinding) where
  module _ (std : Sort) where
    -- the probes that the edges at these positions ask for at the child
    abbrev IsChosen : DagNode → List ℕ → ℕ → List ColumnBinding → Type 0
    IsChosen child is t cols =
        (i : ℕ) × (e : DagEdge) × In i is
        × (get_elem? child.edges_to_parents i ≡ some e)
        × IsWanted child.table_idx e.child_cols t cols

    backward_edges-IsAdvanced :
        (child : DagNode) (is : List ℕ) (s : BackwardState)
        → IsParallel nodes child.table_idx child.parents child.edges_to_parents
        → IsHome nodes child.table_op child.table_idx
        → ((i : ℕ) → In i is → i < length child.edges_to_parents)
        → IsBackward nodes rep s
        → (s' : BackwardState) × (backward_edges std nodes child is s ≡ some s')
          × IsAdvanced nodes rep s s' (IsChosen child is)
    unfolding backward_edges
    backward_edges-IsAdvanced child [] s par home inside w = (
      s,
      refl,
      record {
        holds = w;
        progress = IsProgress_start nodes s.emitted.ops _ (λ t cols h. h.2) w.sound;
      },
    )
    backward_edges-IsAdvanced child (i ∷ is) s par home inside w =
        let (e, p, at_e, at_p, edge) =
          IsParallel-at nodes child.table_idx child.parents child.edges_to_parents i par
            (inside i (inl refl)) in
        let (parent, at, same, parent_home) = parent-IsHome nodes p e.parent_table edge.parent in
        let (s₁, ran₁, first) =
          backward_edge-IsAdvanced nodes rep child parent p e s edge home parent_home w in
        let (s', ran, rest) =
          backward_edges-IsAdvanced child is s₁ par home (λ j m. inside j (inr m)) first.holds in
        (
          s',
          ground (arith, at_e, at_p, at, ran₁, ran),
          record {
            holds = rest.holds;
            progress =
                IsProgress_then nodes _ _ _ _ _ _
                  (λ t cols h. elim h.2 [
                    | inl eq ↦
                        let here : e ≡ h.1 =
                          some-injective e h.1
                            (sym at_e ∙ ap (get_elem? child.edges_to_parents) (sym eq) ∙ h.3) in
                        inl (h.4.0, ap (λ (x : DagEdge). x.child_cols) here ∙ h.4.1)
                    | inr m ↦ inr (h.0, h.1, m, h.3, h.4)
                  ])
                  first.progress rest.progress;
          },
        )

    -- the probes that the edges of nodes ask for at the nodes
    abbrev IsNodeWanted : List DagNode → ℕ → List ColumnBinding → Type 0
    IsNodeWanted ns t cols =
        (n : DagNode) × (e : DagEdge) × In n ns
        × In e n.edges_to_parents
        × IsWanted n.table_idx e.child_cols t cols

    sorted : DagNode → List ℕ
    sorted n = std.sort (parent_cardinality std nodes n) (indices 0 n.edges_to_parents)

    IsChosen-sorted :
        (n : DagNode) (e : DagEdge) (t : ℕ) (cols : List ColumnBinding)
        → In e n.edges_to_parents
        → IsWanted n.table_idx e.child_cols t cols
        → IsChosen n (sorted n) t cols
    unfolding sorted
    IsChosen-sorted n e t cols m w =
        let (i, i_in, at) = index_of n.edges_to_parents e m in
        (
          i,
          e,
          (std.In-sort (parent_cardinality std nodes n) (indices 0 n.edges_to_parents) i).1 i_in,
          at,
          w,
        )

    backward_nodes-IsAdvanced :
        (ns : List DagNode) (s : BackwardState)
        → IsLinked nodes
        → ((n : DagNode) → In n ns → In n nodes)
        → IsBackward nodes rep s
        → (s' : BackwardState) × (backward_nodes std nodes ns s ≡ some s')
          × IsAdvanced nodes rep s s' (IsNodeWanted ns)
    unfolding backward_nodes sorted
    backward_nodes-IsAdvanced [] s w inside b = (
      s,
      refl,
      record {
        holds = b;
        progress = IsProgress_start nodes s.emitted.ops _ (λ t cols h. h.2) b.sound;
      },
    )
    backward_nodes-IsAdvanced (n ∷ ns) s w inside b =
        let at = inside n (inl refl) in
        let bound : (i : ℕ) → In i (sorted n) → i < length n.edges_to_parents = λ i m. omega (
          arith,
          In-indices n.edges_to_parents 0 i
              ((std.In-sort (parent_cardinality std nodes n) (indices 0 n.edges_to_parents) i).0 m),
        ) in
        let (s₁, ran₁, first) =
          backward_edges-IsAdvanced n (sorted n) s (In-IsParallel nodes n w at)
            (In-IsHome nodes n at) bound b in
        let (s', ran, rest) =
          backward_nodes-IsAdvanced ns s₁ w (λ m i. inside m (inr i)) first.holds in
        (
          s',
          ground (arith, ran₁, ran),
          record {
            holds = rest.holds;
            progress =
                IsProgress_then nodes _ _ _ _ _ _
                  (λ t cols h. elim h.2 [
                    | inl eq ↦ inl (
                        IsChosen-sorted n h.1 t cols
                          (subst (λ (x : DagNode). In h.1 x.edges_to_parents) eq h.3)
                          (subst (λ (x : DagNode). IsWanted x.table_idx h.1.child_cols t cols) eq
                            h.4))
                    | inr m ↦ inr (h.0, h.1, m, h.3, h.4)
                  ])
                  first.progress rest.progress;
          },
        )

    -- the probes of the nodes on `k` levels from a level upwards
    abbrev pub IsLevelWanted : ℕ → ℕ → ℕ → List ColumnBinding → Type 0
    IsLevelWanted k level t cols =
        (n : DagNode) × (e : DagEdge) × (l : ℕ) × In n nodes
        × (n.level ≡ some l)
        × (level ≤ l)
        × (l < level + k)
        × In e n.edges_to_parents
        × IsWanted n.table_idx e.child_cols t cols

    pub backward_levels-IsAdvanced :
        (k level : ℕ) (s : BackwardState)
        → IsLinked nodes
        → IsBackward nodes rep s
        → (s' : BackwardState) × (backward_levels std nodes k level s ≡ some s')
          × IsAdvanced nodes rep s s' (IsLevelWanted k level)
    unfolding backward_levels
    backward_levels-IsAdvanced zero level s w b = (
      s,
      refl,
      record {
        holds = b;
        progress =
            IsProgress_start nodes s.emitted.ops _ (λ t cols h. ground (arith, h.5, h.6)) b.sound;
      },
    )
    backward_levels-IsAdvanced (suc k) level s w b =
        let (s₁, ran₁, first) =
          backward_nodes-IsAdvanced (nodes_at level nodes) s w (λ n i. In-nodes_at level nodes n i)
            b in
        let (s', ran, rest) = backward_levels-IsAdvanced k (suc level) s₁ w first.holds in
        (
          s',
          ground (arith, ran₁, ran),
          record {
            holds = rest.holds;
            progress =
                IsProgress_then nodes _ _ _ _ _ _
                  (λ t cols h. elim (Bool-cases (h.2 == level)) [
                    | inl eq ↦ inl (
                      h.0,
                      h.1,
                      nodes_at-In level nodes h.0 h.3 (h.4 ∙ ap some ((==_iff h.2 level).0 eq)),
                      h.7,
                      h.8,
                    )
                    | inr ne ↦ inr (
                      h.0,
                      h.1,
                      h.2,
                      h.3,
                      h.4,
                      ground (arith, ne, h.5),
                      ground (arith, h.6),
                      h.7,
                      h.8,
                    )
                  ])
                  first.progress rest.progress;
          },
        )
