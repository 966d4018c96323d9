-- ===== src/Optimizer/Operations.antt =====
-- The maps of filter operations that the generators of src/optimizer/robust_optimizer.cpp fill.
pub mod Laws
use robust.Prelude.{
  ℕ, zero, suc, ◌+◌, ◌-◌, ◌*◌, ◌/◌, ◌%◌, ◌^◌, ◌≤◌, ◌<◌, min, max, ◌≡◌, refl, sym, ap, ◌∙◌, subst,
  ◌≢◌, ◌↔◌, ◌⊎◌, inl, inr, Bool, true, false, not, ◌&&◌, ◌||◌, Option, none, some, List, [], ◌∷◌,
  ◌++◌, map, foldl, arith, ltb, leb, ◌==◌, if◌then◌else◌, ltb→lt, lt→ltb, ==_iff, ==_refl,
  Bool-cases, and-eq-true, Option-cases, ◌>>=◌, >>=-eq-some, length, get_elem?, get_or, set,
  replicate, is_empty, tail, length-append, length-set, In, All, All-In, In-append,
}
use robust.Column.{ColumnBinding, FilterOperation}
use robust.Optimizer.Stack.{OpMap, find_ops}

-- `ops[k].push_back(op)`
unfoldable pub push_op : ℕ → FilterOperation → OpMap → OpMap
push_op k op [] = (k, op ∷ []) ∷ []
push_op k op ((j, ops) ∷ rest) =
    if j == k then (j, ops ++ op ∷ []) ∷ rest else (j, ops) ∷ push_op k op rest

-- `ops[k].size()`
unfoldable pub count_ops : ℕ → OpMap → ℕ
count_ops k m = elim (find_ops k m) [ none ↦ 0 | some ops ↦ length ops ]

unfoldable pub change_at :
    ℕ → (FilterOperation → FilterOperation) → List FilterOperation → List FilterOperation
change_at i f [] = []
change_at zero f (op ∷ ops) = f op ∷ ops
change_at (suc i) f (op ∷ ops) = op ∷ change_at i f ops

-- a write through the reference `ops[k][i]`
unfoldable pub change_op : ℕ → ℕ → (FilterOperation → FilterOperation) → OpMap → OpMap
change_op k i f [] = []
change_op k i f ((j, ops) ∷ rest) =
    if j == k then (j, change_at i f ops) ∷ rest else (j, ops) ∷ change_op k i f rest

-- a read of `ops[k][i]`
unfoldable pub op_at : OpMap → ℕ → ℕ → Option FilterOperation
op_at m k i = find_ops k m >>= λ ops. get_elem? ops i

-- The end of a filter: a table with the key of its operator and its columns.
pub record FilterEnd : Type 0 where
  pub key : ℕ
  pub table : ℕ
  pub columns : List ColumnBinding

-- Maps of one pass, with the sequence number of the next operation.
pub record Emitted : Type 0 where
  pub ops : OpMap
  pub sequence : ℕ

unfoldable pub operation : Bool → Bool → FilterEnd → FilterEnd → ℕ → FilterOperation
operation create forward build probe sequence = record {
  is_create = create;
  build_table_idx = build.table;
  probe_table_idx = probe.table;
  build_columns = build.columns;
  probe_columns = probe.columns;
  sequence_number = sequence;
  is_forward_pass = forward;
}

-- A CREATE_FILTER on the build side, then a PROBE_FILTER on the probe side.
unfoldable pub emit_pair : Bool → FilterEnd → FilterEnd → Emitted → Emitted
emit_pair forward build probe s = record {
  ops =
      push_op probe.key (operation false forward build probe (suc s.sequence))
        (push_op build.key (operation true forward build probe s.sequence) s.ops);
  sequence = suc (suc s.sequence);
}
