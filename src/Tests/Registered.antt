-- ===== src/Tests/Registered.antt =====
-- An example of the theorem on the profiling state.
use robust.Prelude.{ℕ, ◌<◌, ◌≡◌, ◌↔◌, true, some, List, [], ◌∷◌, length, get_elem?, In}
use robust.Column.{ColumnBinding}
use robust.Profiling.{CreateFilterStats, RobustProfilingState, register_create_filter}
use robust.Profiling.Laws.{IsDistinct, IsTableOf, register_create_filter-IsDistinct}

abbrev no_stats : RobustProfilingState
no_stats = record { create_filter_stats = []; probe_filter_stats = [] }

abbrev columns : List ColumnBinding
columns =
    (record { table_index = 2; column_index = 0 })
    ∷ (record { table_index = 3; column_index = 0 })
    ∷ (record { table_index = 2; column_index = 1 })
    ∷ []

register_create_filter-IsDistinct_example :
    let r = register_create_filter no_stats 1 columns 0 true in
    (stats : CreateFilterStats) × (get_elem? r.0.create_filter_stats r.1 ≡ some stats)
    × IsDistinct stats.probe_table_indices
    × ((t : ℕ) → In t stats.probe_table_indices ↔ IsTableOf columns t)
    × ((i : ℕ)
        → i < length no_stats.create_filter_stats
        → get_elem? r.0.create_filter_stats i ≡ get_elem? no_stats.create_filter_stats i)
register_create_filter-IsDistinct_example =
    register_create_filter-IsDistinct no_stats 1 columns 0 true
