-- ===== src/Physical/MinMax.antt =====
-- The min-max tracking of src/operators/physical_create_filter.cpp. A column's `ColumnMinMax` with
-- `has_value` false is `none`.
pub mod Laws
use robust.Prelude.{
  ℕ, zero, suc, ◌+◌, ◌-◌, ◌*◌, ◌/◌, ◌%◌, ◌^◌, ◌≤◌, ◌<◌, min, max, ◌≡◌, refl, sym, ap, ◌∙◌, subst,
  ◌≢◌, ◌↔◌, ◌⊎◌, inl, inr, Bool, true, false, not, ◌&&◌, ◌||◌, Option, none, some, List, [], ◌∷◌,
  ◌++◌, map, foldl, arith, ltb, leb, ◌==◌, if◌then◌else◌, ltb→lt, lt→ltb, ==_iff, ==_refl,
  Bool-cases, and-eq-true, Option-cases, ◌>>=◌, >>=-eq-some, length, get_elem?, get_or, set,
  replicate, is_empty, length-append, length-set, In, All, All-In, In-append,
}
use robust.Engine.{Engine}
use robust.Physical.Chunk.{LogicalTypeId, other_type}

pub record MinMax (V : Type 0) : Type 0 where
  pub min_val : V
  pub max_val : V

module _ {V F : Type 0} (engine : Engine V F) where
  open engine use {less, raw_less}

  -- one valid row in the loop, with the `<` of the cell's C++ type, of `TypedUpdateMinMax`
  pub widen : Option (MinMax V) → V → MinMax V
  widen none v = record { min_val = v; max_val = v }
  widen (some m) v = record {
    min_val = if raw_less v m.min_val then v else m.min_val;
    max_val = if raw_less m.max_val v then v else m.max_val;
  }

  pub scan_min_max : Option (MinMax V) → List (Option V) → Option (MinMax V)
  scan_min_max local [] = local
  scan_min_max local (none ∷ cells) = scan_min_max local cells
  scan_min_max local (some v ∷ cells) = scan_min_max (some (widen local v)) cells

  -- The merge of a local range into a kept one: the end of `TypedUpdateMinMax`, and `Combine`.
  pub merge_min_max : Option (MinMax V) → Option (MinMax V) → Option (MinMax V)
  merge_min_max mm none = mm
  merge_min_max none (some l) = some l
  merge_min_max (some m) (some l) = some (record {
    min_val = if less l.min_val m.min_val then l.min_val else m.min_val;
    max_val = if less m.max_val l.max_val then l.max_val else m.max_val;
  })

  pub typed_update_min_max : List (Option V) → Option (MinMax V) → Option (MinMax V)
  typed_update_min_max cells mm = merge_min_max mm (scan_min_max none cells)

  -- A type that is not listed in the switch is not tracked.
  pub update_min_max : LogicalTypeId → List (Option V) → Option (MinMax V) → Option (MinMax V)
  update_min_max other_type cells mm = mm
  update_min_max _ cells mm = typed_update_min_max cells mm
