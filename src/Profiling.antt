-- ===== src/Profiling.antt =====
-- What the operators register with `RobustProfilingState` of src/include/robust_profiling.hpp. The
-- counters of elapsed time are left out.
pub mod Laws
use robust.Prelude.{
  ℕ, zero, suc, ◌+◌, ◌-◌, ◌*◌, ◌/◌, ◌%◌, ◌^◌, ◌≤◌, ◌<◌, min, max, ◌≡◌, refl, sym, ap, ◌∙◌, subst,
  ◌≢◌, ◌↔◌, ◌⊎◌, inl, inr, Bool, true, false, not, ◌&&◌, ◌||◌, Option, none, some, List, [], ◌∷◌,
  ◌++◌, map, foldl, arith, ltb, leb, ◌==◌, if◌then◌else◌, ltb→lt, lt→ltb, ==_iff, ==_refl,
  Bool-cases, and-eq-true, Option-cases, ◌>>=◌, >>=-eq-some, length, get_elem?, get_or, set,
  replicate, is_empty, tail, length-append, length-set, In, All, All-In, In-append,
}
use robust.Column.{ColumnBinding}
use robust.Optimizer.SpanningTree.{is_member}

pub record CreateFilterStats : Type 0 where
  pub sequence_number : ℕ
  pub build_table_idx : ℕ
  pub probe_table_indices : List ℕ
  pub is_forward_pass : Bool
  pub rows_materialized : ℕ

pub record ProbeFilterStats : Type 0 where
  pub sequence_number : ℕ
  pub build_table_idx : ℕ
  pub probe_table_idx : ℕ
  pub is_forward_pass : Bool
  pub rows_in : ℕ
  pub rows_out : ℕ

pub record RobustProfilingState : Type 0 where
  pub create_filter_stats : List CreateFilterStats
  pub probe_filter_stats : List ProbeFilterStats

-- whether the last index is this one
unfoldable pub is_last : ℕ → List ℕ → Bool
is_last t [] = false
is_last t (i ∷ []) = i == t
is_last t (i ∷ j ∷ is) = is_last t (j ∷ is)

-- one round of the loop over the probe columns
unfoldable pub add_index : List ℕ → ColumnBinding → List ℕ
add_index indices col =
    if is_last col.table_index indices
    then indices
    else if is_member col.table_index indices
    then indices
    else indices ++ col.table_index ∷ []

unfoldable pub probe_tables : List ColumnBinding → List ℕ → List ℕ
probe_tables [] indices = indices
probe_tables (c ∷ cols) indices = probe_tables cols (add_index indices c)

-- The position of the new entry stands for the shared pointer to it.
unfoldable pub register_create_filter :
    RobustProfilingState → ℕ → List ColumnBinding → ℕ → Bool → RobustProfilingState × ℕ
register_create_filter s build_table_idx probe_columns sequence_number forward = (
  record s {
    create_filter_stats =
        s.create_filter_stats
        ++ (record {
          sequence_number = sequence_number;
          build_table_idx = build_table_idx;
          probe_table_indices = probe_tables probe_columns [];
          is_forward_pass = forward;
          rows_materialized = 0;
        })
          ∷ [];
  },
  length s.create_filter_stats,
)

unfoldable pub register_probe_filter :
    RobustProfilingState → ℕ → ℕ → ℕ → Bool → RobustProfilingState × ℕ
register_probe_filter s build_table_idx probe_table_idx sequence_number forward = (
  record s {
    probe_filter_stats =
        s.probe_filter_stats
        ++ (record {
          sequence_number = sequence_number;
          build_table_idx = build_table_idx;
          probe_table_idx = probe_table_idx;
          is_forward_pass = forward;
          rows_in = 0;
          rows_out = 0;
        })
          ∷ [];
  },
  length s.probe_filter_stats,
)
