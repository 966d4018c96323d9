-- ===== src/Physical/Registry.antt =====
-- src/include/probe_empty_registry.hpp. A flag is a cell of a store, and a `shared_ptr` to it is the
-- cell's number: a holder keeps its flag when the map is cleared.
pub mod Laws
use robust.Prelude.{
  ℕ, ◌<◌, ◌≡◌, Bool, true, false, Option, none, some, List, [], ◌∷◌, ◌++◌, ◌==◌, if◌then◌else◌,
  length, get_or, set,
}

pub record ProbeEmptyRegistry : Type 0 where
  pub flags : List (ℕ × ℕ)
  pub store : List Bool

unfoldable pub find_flag : ℕ → List (ℕ × ℕ) → Option ℕ
find_flag t [] = none
find_flag t ((k, f) ∷ rest) = if k == t then some f else find_flag t rest

-- `GetOrCreate`, under the lock of the registry
pub get_or_create : ProbeEmptyRegistry → ℕ → ProbeEmptyRegistry × ℕ
get_or_create reg t = elim (find_flag t reg.flags) [
  | some f ↦ (reg, f)
  | none ↦ (
    record reg { flags = (t, length reg.store) ∷ reg.flags; store = reg.store ++ false ∷ [] },
    length reg.store,
  )
]

unfoldable pub load : ProbeEmptyRegistry → ℕ → Bool
load reg f = get_or reg.store f false

unfoldable pub raise : ProbeEmptyRegistry → ℕ → ProbeEmptyRegistry
raise reg f = record reg { store = set reg.store f true }

pub query_end : ProbeEmptyRegistry → ProbeEmptyRegistry
query_end reg = record reg { flags = [] }

-- Every flag of the map is in the store, and no two tables share one.
pub record IsWellFormed (reg : ProbeEmptyRegistry) : Type 0 where
  pub in_store : (t f : ℕ) → find_flag t reg.flags ≡ some f → f < length reg.store
  pub apart : (t u f : ℕ) → find_flag t reg.flags ≡ some f → find_flag u reg.flags ≡ some f → t ≡ u
