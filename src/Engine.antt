-- ===== src/Engine.antt =====
-- What the operators take from DuckDB: values and their order, hashes, the native bloom filter and
-- the chunks of a column data collection. The fields with a law state what that code documents.
use robust.Prelude.{ℕ, ◌≤◌, ◌≡◌, ◌↔◌, Bool, true, false, List, [], ◌∷◌, ◌++◌, Option}

abbrev pub Cell : Type 0 → Type 0
Cell V = Option V

abbrev pub Row : Type 0 → Type 0
Row V = List (Option V)

abbrev pub concat : {A : Type 0} → List (List A) → List A
concat [] = []
concat (x ∷ xs) = x ++ concat xs

-- `V` are the values of a column other than NULL, `F` the native bloom filters.
pub record Engine (V F : Type 0) : Type 0 where
  pub less : V → V → Bool
  pub less-irrefl : (a : V) → less a a ≡ false
  pub less-trans : (a b c : V) → less a b ≡ true → less b c ≡ true → less a c ≡ true
  pub less-total : (a b : V) → less a b ≡ false → less b a ≡ false → a ≡ b
  -- The `<` of C++ on the cells of a column: that of the values, but a NaN of a FLOAT or DOUBLE column
  -- compares with nothing, where the order of the values has it above all others.
  pub is_nan : V → Bool
  pub raw_less : V → V → Bool
  pub raw_less-less : (a b : V) → is_nan a ≡ false → is_nan b ≡ false → raw_less a b ≡ less a b
  pub raw_less-nan : (a b : V) → is_nan a ≡ true → (raw_less a b ≡ false) × (raw_less b a ≡ false)
  pub less-nan : (a b : V) → is_nan a ≡ true → is_nan b ≡ false → less b a ≡ true
  pub value_eq : V → V → Bool
  pub value_eq_iff : (a b : V) → (value_eq a b ≡ true) ↔ (a ≡ b)
  pub hash : Option V → ℕ
  pub combine_hash : ℕ → Option V → ℕ
  -- a default-constructed `BloomFilter`, `Initialize`, and the per-hash insert and lookup
  pub blank : F
  pub initialize : ℕ → F
  pub insert_hash : ℕ → F → F
  pub lookup_hash : ℕ → F → Bool
  pub lookup-insert_self : (h : ℕ) (f : F) → lookup_hash h (insert_hash h f) ≡ true
  pub lookup-insert_mono :
      (h k : ℕ) (f : F) → lookup_hash h f ≡ true → lookup_hash h (insert_hash k f) ≡ true
  -- how a `ColumnDataCollection` cuts its rows into chunks
  pub pack : List (List (Option V)) → List (List (List (Option V)))
  pub concat-pack : (rows : List (List (Option V))) → concat (pack rows) ≡ rows
  pub next_power_of_two : ℕ → ℕ
  pub le-next_power_of_two : (n : ℕ) → n ≤ next_power_of_two n
