-- ===== src/Physical/Chunk.antt =====
-- `DataChunk` as the operators use it: the column types, and the rows.
use robust.Prelude.{
  Bool, ℕ, List, [], ◌∷◌, map, Option, none, some, length, is_empty, get_or, ltb, if◌then◌else◌,
}

-- The types of `UpdateMinMax`, and all others as one.
pub data LogicalTypeId : Type 0 where
  tinyint smallint integer bigint utinyint usmallint uinteger ubigint : LogicalTypeId
  float double date timestamp varchar other_type : LogicalTypeId

pub record DataChunk (V : Type 0) : Type 0 where
  pub types : List LogicalTypeId
  pub rows : List (List (Option V))

module _ {V : Type 0} where
  abbrev pub size : DataChunk V → ℕ
  size c = length c.rows

  -- `size() == 0`
  abbrev pub no_rows : DataChunk V → Bool
  no_rows c = is_empty c.rows

  abbrev pub column_count : DataChunk V → ℕ
  column_count c = length c.types

  -- A cell beyond the end of a short row reads as NULL; the rows of a chunk are never short.
  abbrev pub cell : ℕ → List (Option V) → Option V
  cell c row = get_or row c none

  -- `chunk.data[c]`; DuckDB's vector throws out of range, which is `none`.
  unfoldable pub column : DataChunk V → ℕ → Option (List (Option V))
  column chunk c = if ltb c (column_count chunk) then some (map (cell c) chunk.rows) else none

  -- The rows at the positions of a selection vector.
  unfoldable pub gather : List ℕ → List (List (Option V)) → List (List (Option V))
  gather [] rows = []
  gather (i ∷ sel) rows = get_or rows i [] ∷ gather sel rows

  -- `Slice(sel, count)`, with a selection vector of `count` entries.
  unfoldable pub slice : List ℕ → DataChunk V → DataChunk V
  slice sel chunk = record chunk { rows = gather sel chunk.rows }
