-- ===== src/Physical/Distinct.antt =====
-- The distinct-value tracking of src/operators/physical_create_filter.cpp. `value_set_t` is DuckDB's
-- hash set; it is a list without repetitions here, and no result depends on the list's order.
pub mod Laws
use robust.Prelude.{
  ℕ, zero, suc, ◌+◌, ◌-◌, ◌*◌, ◌/◌, ◌%◌, ◌^◌, ◌≤◌, ◌<◌, min, max, ◌≡◌, refl, sym, ap, ◌∙◌, subst,
  ◌≢◌, ◌↔◌, ◌⊎◌, inl, inr, Bool, true, false, not, ◌&&◌, ◌||◌, Option, none, some, List, [], ◌∷◌,
  ◌++◌, map, foldl, arith, ltb, leb, ◌==◌, if◌then◌else◌, ltb→lt, lt→ltb, ==_iff, ==_refl,
  Bool-cases, and-eq-true, Option-cases, ◌>>=◌, >>=-eq-some, length, get_elem?, get_or, set,
  replicate, is_empty, length-append, length-set, In, All, All-In, In-append,
}
use robust.Engine.{Engine}

pub record ColumnDistinct (V : Type 0) : Type 0 where
  pub values : List V
  pub over_threshold : Bool

abbrev pub no_values : {V : Type 0} → ColumnDistinct V
no_values = record { values = []; over_threshold = false }

abbrev pub overflow : {V : Type 0} → ColumnDistinct V
overflow = record { values = []; over_threshold = true }

module _ {V F : Type 0} (engine : Engine V F) where
  open engine use {value_eq}

  unfoldable pub contains : List V → V → Bool
  contains [] v = false
  contains (w ∷ ws) v = value_eq w v || contains ws v

  -- `values.insert`
  pub insert_value : V → List V → List V
  insert_value v ws = if contains ws v then ws else v ∷ ws

  -- the row loop of `Sink`: NULL is skipped, and the loop ends when the set outgrows the threshold
  pub track_rows : ℕ → List (Option V) → List V → ColumnDistinct V
  track_rows threshold [] ws = record { values = ws; over_threshold = false }
  track_rows threshold (none ∷ cells) ws = track_rows threshold cells ws
  track_rows threshold (some v ∷ cells) ws =
      let rest = track_rows threshold cells (insert_value v ws) in
      if ltb threshold (length (insert_value v ws)) then overflow else rest

  pub track_distinct : ℕ → List (Option V) → ColumnDistinct V → ColumnDistinct V
  track_distinct threshold cells cd =
      if cd.over_threshold then cd else track_rows threshold cells cd.values

  -- the value loop of `Combine`
  pub merge_values : ℕ → List V → List V → ColumnDistinct V
  merge_values threshold [] ws = record { values = ws; over_threshold = false }
  merge_values threshold (v ∷ vs) ws =
      let rest = merge_values threshold vs (insert_value v ws) in
      if ltb threshold (length (insert_value v ws)) then overflow else rest

  pub merge_distinct : ℕ → ColumnDistinct V → ColumnDistinct V → ColumnDistinct V
  merge_distinct threshold global local =
      if global.over_threshold
      then global
      else if local.over_threshold
      then overflow
      else merge_values threshold local.values global.values
