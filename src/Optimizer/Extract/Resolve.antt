-- ===== src/Optimizer/Extract/Resolve.antt =====
-- The loop of `ResolveColumnBinding` of src/optimizer/robust_optimizer.cpp.
use robust.Prelude.{
  ℕ, zero, suc, ◌≤◌, ◌<◌, ◌≡◌, refl, sym, ap, ◌∙◌, subst, inl, inr, true, false, none, some, List,
  [], ◌∷◌, arith, if◌then◌else◌, Bool-cases, Option-cases, length, All,
}
use mathlib.Core.Option.{some-injective}
use robust.Column.{ColumnBinding, binding_eq, binding_eq_iff, binding_eq_refl}
use robust.Optimizer.Extract.{
  Renames, find_rename, is_visited, resolve_loop, resolve_column_binding,
}

-- the renames of columns that were not visited yet
unfoldable fresh : Renames → List ColumnBinding → ℕ
unfolding is_visited
fresh [] visited = 0
fresh ((k, v) ∷ rest) visited =
    if is_visited k visited then fresh rest visited else suc (fresh rest visited)

fresh-empty : (renames : Renames) → fresh renames [] ≡ length renames
unfolding fresh is_visited
fresh-empty [] = refl
fresh-empty ((k, v) ∷ rest) = ground (arith, fresh-empty rest)

fresh_shrinks :
    (renames : Renames) (b : ColumnBinding) (visited : List ColumnBinding)
    → fresh renames (b ∷ visited) ≤ fresh renames visited
unfolding fresh is_visited
fresh_shrinks [] b visited = ground arith
fresh_shrinks ((k, v) ∷ rest) b visited = ground (arith, fresh_shrinks rest b visited)

fresh_drops :
    (renames : Renames) (b next : ColumnBinding) (visited : List ColumnBinding)
    → find_rename b renames ≡ some next
    → is_visited b visited ≡ false
    → fresh renames (b ∷ visited) < fresh renames visited
unfolding fresh is_visited find_rename
fresh_drops [] b next visited e w = ground (arith, e)
fresh_drops ((k, v) ∷ rest) b next visited e w = elim (Bool-cases (binding_eq k b)) [
  | inl h ↦
      ground
        (arith, e, w, h, (binding_eq_iff k b).0 h, binding_eq_refl b, fresh_shrinks rest b visited)
  | inr h ↦ ground (arith, e, w, h, fresh_drops rest b next visited, fresh_shrinks rest b visited)
]

resolve_loop_total :
    (fuel : ℕ) (renames : Renames) (visited : List ColumnBinding) (b : ColumnBinding)
    → fresh renames visited < fuel
    → (r : ColumnBinding) × resolve_loop fuel renames visited b ≡ some r
unfolding resolve_loop
resolve_loop_total zero renames visited b bound = ground (arith, bound)
resolve_loop_total (suc fuel) renames visited b bound = elim (Bool-cases (is_visited b visited)) [
  | inl h ↦ (b, ground (arith, h))
  | inr h ↦ elim (Option-cases (find_rename b renames)) [
    | inl e ↦ (b, ground (arith, h, e))
    | inr (next, e) ↦
        let less = fresh_drops renames b next visited e h in
        let later =
          resolve_loop_total fuel renames (b ∷ visited) next (ground (arith, bound, less)) in
        (later.0, ground (arith, h, e, later.1))
  ]
]

-- Following the renames from any column ends: one round more than there are renames is never used
-- up, cycles included.
pub resolve_column_binding_total :
    (renames : Renames) (b : ColumnBinding)
    → (r : ColumnBinding) × resolve_column_binding renames b ≡ some r
unfolding resolve_column_binding
resolve_column_binding_total renames b =
    resolve_loop_total (suc (suc (length renames))) renames [] b
      (ground (arith, fresh-empty renames))

-- `b` is renamed `n` times and then it is `r`, a column that is not renamed.
unfoldable pub Leads : ℕ → Renames → ColumnBinding → ColumnBinding → Type 0
unfolding find_rename
Leads zero renames b r = (b ≡ r) × (find_rename b renames ≡ none)
Leads (suc n) renames b r =
    (next : ColumnBinding) × (find_rename b renames ≡ some next) × Leads n renames next r

Leads-unique :
    (n m : ℕ) (renames : Renames) (b r : ColumnBinding)
    → Leads n renames b r
    → Leads m renames b r
    → n ≡ m
unfolding Leads
Leads-unique zero zero renames b r p q = refl
Leads-unique zero (suc m) renames b r p q = ground (arith, p.1, q.1)
Leads-unique (suc n) zero renames b r p q = ground (arith, p.1, q.1)
Leads-unique (suc n) (suc m) renames b r p q =
    let same : p.0 ≡ q.0 = some-injective p.0 q.0 (sym p.1 ∙ q.1) in
    ap suc (
      Leads-unique n m renames p.0 r p.2
        (subst (λ (c : ColumnBinding). Leads m renames c r) (sym same) q.2))

-- a visited column leads to the same column on a longer way
IsBehind : Renames → ColumnBinding → ℕ → ColumnBinding → Type 0
IsBehind renames r n v = (m : ℕ) × (n < m) × Leads m renames v r

IsBehind-visited :
    (renames : Renames) (r b : ColumnBinding) (n : ℕ) (visited : List ColumnBinding)
    → All (IsBehind renames r n) visited
    → is_visited b visited ≡ true
    → IsBehind renames r n b
unfolding is_visited
IsBehind-visited renames r b n [] w h = ground (arith, h)
IsBehind-visited renames r b n (v ∷ vs) w h = elim (Bool-cases (binding_eq v b)) [
  | inl e ↦ subst (λ (c : ColumnBinding). IsBehind renames r n c) ((binding_eq_iff v b).0 e) w.0
  | inr e ↦ IsBehind-visited renames r b n vs w.1 (ground (arith, h, e))
]

IsBehind-sooner :
    (renames : Renames) (r : ColumnBinding) (n : ℕ) (visited : List ColumnBinding)
    → All (IsBehind renames r (suc n)) visited
    → All (IsBehind renames r n) visited
unfolding IsBehind
IsBehind-sooner renames r n [] w = tt
IsBehind-sooner renames r n (v ∷ vs) w =
    let m = w.0.0 in
    let bound : suc n < m = w.0.1 in
    ((m, ground (arith, bound), w.0.2), IsBehind-sooner renames r n vs w.1)

not-visited :
    (renames : Renames) (r b : ColumnBinding) (n : ℕ) (visited : List ColumnBinding)
    → All (IsBehind renames r n) visited
    → Leads n renames b r
    → is_visited b visited ≡ false
unfolding IsBehind
not-visited renames r b n visited w l = elim (Bool-cases (is_visited b visited)) [
  | inr h ↦ h
  | inl h ↦
      let longer = IsBehind-visited renames r b n visited w h in
      let same : longer.0 ≡ n = Leads-unique longer.0 n renames b r longer.2 l in
      let bound : n < longer.0 = longer.1 in ground (arith, same, bound)
]

resolve_loop-Leads :
    (fuel n : ℕ) (renames : Renames) (visited : List ColumnBinding) (b r s : ColumnBinding)
    → All (IsBehind renames r n) visited
    → Leads n renames b r
    → resolve_loop fuel renames visited b ≡ some s
    → s ≡ r
unfolding resolve_loop Leads IsBehind
resolve_loop-Leads zero n renames visited b r s w l e = ground (arith, e)
resolve_loop-Leads (suc fuel) zero renames visited b r s w l e =
    let open_end = l.1 in
    let same : b ≡ r = l.0 in
    ground (arith, e, not-visited renames r b zero visited w l, open_end, same)
resolve_loop-Leads (suc fuel) (suc n) renames visited b r s w l e =
    let renamed = l.1 in
    resolve_loop-Leads fuel n renames (b ∷ visited) l.0 r s
      ((suc n, ground arith, l), IsBehind-sooner renames r n visited w) l.2
      (ground (arith, e, not-visited renames r b (suc n) visited w l, renamed))

-- A column whose renames lead to a column that is not renamed is resolved to that column, however
-- many renames there are between.
pub resolve_column_binding-Leads :
    (n : ℕ) (renames : Renames) (b r : ColumnBinding)
    → Leads n renames b r
    → resolve_column_binding renames b ≡ some r
unfolding resolve_column_binding
resolve_column_binding-Leads n renames b r l =
    let found = resolve_column_binding_total renames b in
    found.1
    ∙ ap some
        (resolve_loop-Leads (suc (suc (length renames))) n renames [] b r found.0 tt l found.1)
