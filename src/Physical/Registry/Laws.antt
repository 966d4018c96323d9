-- ===== src/Physical/Registry/Laws.antt =====
-- The sharing of flags in src/include/probe_empty_registry.hpp.
use robust.Prelude.{
  ℕ, ◌≡◌, sym, ◌∙◌, subst, ◌↔◌, inl, inr, false, none, some, [], ◌∷◌, ◌++◌, arith, Option-cases,
  length, length-append,
}
use mathlib.Core.Option.{some-injective}
use robust.Physical.Registry.{ProbeEmptyRegistry, find_flag, get_or_create, IsWellFormed}

get_or_create-known :
    (reg : ProbeEmptyRegistry) (t f : ℕ)
    → find_flag t reg.flags ≡ some f
    → get_or_create reg t ≡ (reg, f)
unfolding get_or_create
get_or_create-known reg t f e = ground (arith, e)

fresh_flag : ProbeEmptyRegistry → ℕ → ProbeEmptyRegistry
fresh_flag reg t = record {
  flags = (t, length reg.store) ∷ reg.flags;
  store = reg.store ++ false ∷ [];
}

get_or_create-new :
    (reg : ProbeEmptyRegistry) (t : ℕ)
    → find_flag t reg.flags ≡ none
    → get_or_create reg t ≡ (fresh_flag reg t, length reg.store)
unfolding get_or_create fresh_flag
get_or_create-new reg t e = ground (arith, e)

fresh_flag-IsWellFormed :
    (reg : ProbeEmptyRegistry) (t : ℕ)
    → IsWellFormed reg
    → find_flag t reg.flags ≡ none
    → IsWellFormed (fresh_flag reg t)
unfolding fresh_flag find_flag
fresh_flag-IsWellFormed reg t w new = record {
  in_store = λ u f e. ground (arith, e, w.in_store u f, length-append reg.store (false ∷ []));
  apart = λ u v f e h. ground (arith, e, h, w.apart u v f, w.in_store u f, w.in_store v f);
}

-- Whatever flags there are, the registry stays well formed: each table's flag is in the store, and
-- no two tables have the same.
pub get_or_create-IsWellFormed :
    (reg : ProbeEmptyRegistry) (t : ℕ) → IsWellFormed reg → IsWellFormed (get_or_create reg t).0
get_or_create-IsWellFormed reg t w = elim (Option-cases (find_flag t reg.flags)) [
  | inl e ↦
      subst (λ (r : ProbeEmptyRegistry × ℕ). IsWellFormed r.0) (sym (get_or_create-new reg t e))
        (fresh_flag-IsWellFormed reg t w e)
  | inr (f, e) ↦
      subst (λ (r : ProbeEmptyRegistry × ℕ). IsWellFormed r.0) (sym (get_or_create-known reg t f e))
        w
]

find_flag-get_or_create :
    (reg : ProbeEmptyRegistry) (t : ℕ)
    → find_flag t (get_or_create reg t).0.flags ≡ some (get_or_create reg t).1
unfolding get_or_create find_flag
find_flag-get_or_create reg t = elim (Option-cases (find_flag t reg.flags)) [
  | inl e ↦ ground (arith, e)
  | inr (f, e) ↦ ground (arith, e)
]

find_flag-kept :
    (reg : ProbeEmptyRegistry) (t u f : ℕ)
    → find_flag t reg.flags ≡ some f
    → find_flag t (get_or_create reg u).0.flags ≡ some f
unfolding get_or_create find_flag
find_flag-kept reg t u f e = elim (Option-cases (find_flag u reg.flags)) [
  | inl n ↦ ground (arith, e, n)
  | inr (g, n) ↦ ground (arith, e, n)
]

-- In a well-formed registry, two operators that ask one after the other get the same flag exactly
-- when they name the same probe table.
pub get_or_create-shared :
    (reg : ProbeEmptyRegistry) (t u : ℕ)
    → IsWellFormed reg
    → ((get_or_create reg t).1 ≡ (get_or_create (get_or_create reg t).0 u).1) ↔ (t ≡ u)
get_or_create-shared reg t u w =
    let first = get_or_create reg t in
    let second = get_or_create first.0 u in
    let w' = get_or_create-IsWellFormed first.0 u (get_or_create-IsWellFormed reg t w) in
    let found = find_flag-get_or_create reg t in
    let kept = find_flag-kept first.0 t u first.1 found in
    let other = find_flag-get_or_create first.0 u in
    (
      λ e.
          w'.apart t u first.1 kept
            (subst (λ (f : ℕ). find_flag u second.0.flags ≡ some f) (sym e) other),
      λ e.
          some-injective first.1 second.1 (
            sym kept ∙ subst (λ (v : ℕ). find_flag v second.0.flags ≡ some second.1) (sym e) other),
    )
