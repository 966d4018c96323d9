-- ===== src/Optimizer/Extract/Edges.antt =====
-- The edges of `CreateJoinEdges` of src/optimizer/robust_optimizer.cpp.
use robust.Prelude.{
  suc, ◌<◌, ◌≡◌, refl, sym, ap, inl, inr, Bool, true, false, ◌&&◌, some, List, [], ◌∷◌, ◌++◌, arith,
  if◌then◌else◌, and-eq-true, Option-cases, length, All,
}
use robust.Column.{ColumnBinding, JoinType, JoinEdge}
use robust.Plan.{Operator, JoinCondition, equal_columns}
use robust.Table.{TableManager}
use robust.Optimizer.Extract.{Renames, resolved_columns, is_known, join_edge, create_join_edges}
use robust.Optimizer.Extract.Resolve.{resolve_column_binding_total}

-- Both tables are registered, and the weight is the number of columns on either side.
pub record IsJoinEdge (m : TableManager) (e : JoinEdge) : Type 0 where
  pub known_a : is_known m e.table_a ≡ true
  pub known_b : is_known m e.table_b ≡ true
  pub columns_a : length e.join_columns_a ≡ e.weight
  pub columns_b : length e.join_columns_b ≡ e.weight
  pub some_column : 0 < e.weight

resolved_columns_total :
    (renames : Renames) (cs : List JoinCondition)
    → (r : List ColumnBinding × List ColumnBinding) × (resolved_columns renames cs ≡ some r)
      × (length r.0 ≡ length r.1)
unfolding resolved_columns
resolved_columns_total renames [] = (([], []), refl, refl)
resolved_columns_total renames (c ∷ cs) =
    let (rest, found, same) = resolved_columns_total renames cs in
    elim (Option-cases (equal_columns c)) [
      | inl n ↦ (rest, ground (arith, found, n), same)
      | inr (lr, n) ↦
          let (a, ea) = resolve_column_binding_total renames lr.0 in
          let (b, eb) = resolve_column_binding_total renames lr.1 in
          ((a ∷ rest.0, b ∷ rest.1), ground (arith, found, n, ea, eb), ap suc same)
    ]

All-if :
    {A : Type 0} (P : A → Type 0) (b : Bool) (xs : List A)
    → (b ≡ true → All P xs)
    → All P (if b then xs else [])
All-if P true xs h = h refl
All-if P false xs h = tt

join_edge-IsJoinEdge :
    (m : TableManager) (type : JoinType) (r : List ColumnBinding × List ColumnBinding)
    → length r.0 ≡ length r.1
    → All (IsJoinEdge m) (join_edge m type r)
unfolding join_edge
join_edge-IsJoinEdge m type ([], others) same = tt
join_edge-IsJoinEdge m type (a ∷ more, []) same = tt
join_edge-IsJoinEdge m type (a ∷ more, b ∷ others) same =
    All-if (IsJoinEdge m) (is_known m a.table_index && is_known m b.table_index) _ (λ known.
      let both = and-eq-true (is_known m a.table_index) (is_known m b.table_index) known in
      (
        record {
          known_a = both.0;
          known_b = both.1;
          columns_a = refl;
          columns_b = sym same;
          some_column = ground arith;
        },
        tt,
      ))

All-append_lem :
    {A : Type 0} (P : A → Type 0) (xs ys : List A) → All P xs → All P ys → All P (xs ++ ys)
All-append_lem P [] ys p q = q
All-append_lem P (x ∷ xs) ys p q = (p.0, All-append_lem P xs ys p.1 q)

-- Whatever join operators and renames were collected, the edges are made without a fault, and each
-- of them joins two registered tables and has as many columns on either side as its weight says,
-- and at least one.
pub create_join_edges-IsJoinEdge :
    (m : TableManager) (renames : Renames) (ops : List Operator)
    → (edges : List JoinEdge) × (create_join_edges m renames ops ≡ some edges)
      × All (IsJoinEdge m) edges
unfolding create_join_edges
create_join_edges-IsJoinEdge m renames [] = ([], refl, tt)
create_join_edges-IsJoinEdge m renames (op ∷ ops) =
    let (r, found, same) = resolved_columns_total renames op.conditions in
    let (rest, ok, w) = create_join_edges-IsJoinEdge m renames ops in
    (
      join_edge m op.join_type r ++ rest,
      ground (arith, found, ok),
      All-append_lem (IsJoinEdge m) (join_edge m op.join_type r) rest
          (join_edge-IsJoinEdge m op.join_type r same) w,
    )
