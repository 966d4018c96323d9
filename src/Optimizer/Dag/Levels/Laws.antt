-- ===== src/Optimizer/Dag/Levels/Laws.antt =====
-- A level written into a node, under the loop of `BuildPhysicalPlanDAG` of
-- src/optimizer/robust_optimizer.cpp.
use robust.Prelude.{
  ℕ, zero, suc, ◌+◌, ◌*◌, ◌≤◌, ◌<◌, max, ◌≡◌, refl, ap, ◌∙◌, inl, inr, Option, none, some, List, [],
  ◌∷◌, arith, ◌==◌, if◌then◌else◌, Option-cases, >>=-eq-some, length, In,
}
use native.Mathlib.Nat.{mul-suc}
use robust.Optimizer.Dag.{DagNode, change_node}
use robust.Optimizer.Dag.Levels.{level_at, parents_at, put_level, max_parent}

pub level_at-put_level :
    (nodes : List DagNode) (i j : ℕ) (ps : List ℕ) (l : Option ℕ)
    → parents_at nodes i ≡ some ps
    → level_at (put_level i l nodes) j ≡ (if i == j then l else level_at nodes j)
unfolding level_at put_level parents_at change_node
level_at-put_level [] i j ps l e = absurd (ground (arith, e))
level_at-put_level (n ∷ nodes) zero zero ps l e = refl
level_at-put_level (n ∷ nodes) zero (suc j) ps l e = ground arith
level_at-put_level (n ∷ nodes) (suc i) zero ps l e = ground arith
level_at-put_level (n ∷ nodes) (suc i) (suc j) ps l e =
    ground (arith, e, level_at-put_level nodes i j ps l e)

pub parents_at-put_level :
    (nodes : List DagNode) (i j : ℕ) (l : Option ℕ)
    → parents_at (put_level i l nodes) j ≡ parents_at nodes j
unfolding put_level parents_at change_node
parents_at-put_level [] i j l = refl
parents_at-put_level (n ∷ nodes) zero zero l = refl
parents_at-put_level (n ∷ nodes) zero (suc j) l = refl
parents_at-put_level (n ∷ nodes) (suc i) zero l = refl
parents_at-put_level (n ∷ nodes) (suc i) (suc j) l = parents_at-put_level nodes i j l

pub length-put_level :
    (nodes : List DagNode) (i : ℕ) (l : Option ℕ) → length (put_level i l nodes) ≡ length nodes
unfolding put_level change_node
length-put_level [] i l = refl
length-put_level (n ∷ nodes) zero l = refl
length-put_level (n ∷ nodes) (suc i) l = ap suc (length-put_level nodes i l)

unfoldable pub weight : Option ℕ → ℕ
weight none = 0
weight (some l) = suc l

-- the sum of the levels, each counted from 1
unfoldable pub total : List DagNode → ℕ
total [] = 0
total (n ∷ nodes) = weight n.level + total nodes

pub total-put_level :
    (nodes : List DagNode) (i : ℕ) (ps : List ℕ) (l : Option ℕ)
    → parents_at nodes i ≡ some ps
    → total (put_level i l nodes) + weight (level_at nodes i) ≡ total nodes + weight l
unfolding total put_level change_node level_at parents_at
total-put_level [] i ps l e = absurd (ground (arith, e))
total-put_level (n ∷ nodes) zero ps l e = ground (arith)
total-put_level (n ∷ nodes) (suc i) ps l e = ground (arith, total-put_level nodes i ps l e)

mul_suc : (a b : ℕ) → a * suc b ≡ a + a * b
mul_suc a b = ground (arith, mul-suc a b)

pub total-le :
    (nodes : List DagNode) (b : ℕ)
    → ((i l : ℕ) → level_at nodes i ≡ some l → l < b)
    → total nodes ≤ b * length nodes
unfolding total level_at weight
total-le [] b h = ground arith
total-le (n ∷ nodes) b h =
    let rest = total-le nodes b (λ i l e. h (suc i) l e) in
    elim (Option-cases n.level) [
      | inl e ↦ ground (arith, e, rest, mul_suc b (length nodes))
      | inr (l, e) ↦ ground (arith, e, h 0 l e, rest, mul_suc b (length nodes))
    ]

unfoldable pub one : Option ℕ → ℕ
one none = 0
one (some l) = 1

-- how many levels are set
unfoldable pub count : List DagNode → ℕ
count [] = 0
count (n ∷ nodes) = one n.level + count nodes

pub count-le-length : (nodes : List DagNode) → count nodes ≤ length nodes
unfolding count one
count-le-length [] = ground arith
count-le-length (n ∷ nodes) = elim (Option-cases n.level) [
  | inl e ↦ ground (arith, e, count-le-length nodes)
  | inr (l, e) ↦ ground (arith, e, count-le-length nodes)
]

pub count-put_level :
    (nodes : List DagNode) (i : ℕ) (ps : List ℕ) (l : ℕ)
    → parents_at nodes i ≡ some ps
    → count (put_level i (some l) nodes) + one (level_at nodes i) ≡ suc (count nodes)
unfolding count put_level change_node level_at parents_at one
count-put_level [] i ps l e = absurd (ground (arith, e))
count-put_level (n ∷ nodes) zero ps l e = ground (arith)
count-put_level (n ∷ nodes) (suc i) ps l e = ground (arith, count-put_level nodes i ps l e)

pub max_parent_mono :
    (nodes nodes' : List DagNode) (ps : List ℕ) (b b' m : ℕ)
    → ((i l : ℕ) → level_at nodes i ≡ some l → (l' : ℕ) × (level_at nodes' i ≡ some l') × (l ≤ l'))
    → b ≤ b'
    → max_parent nodes ps b ≡ some m
    → (m' : ℕ) × (max_parent nodes' ps b' ≡ some m') × (m ≤ m')
unfolding max_parent
max_parent_mono nodes nodes' [] b b' m h le e = (b', refl, ground (arith, le, e))
max_parent_mono nodes nodes' (p ∷ ps) b b' m h le e =
    let (l, e₁, e₂) = >>=-eq-some (level_at nodes p) _ e in
    let (l', e', le') = h p l e₁ in
    let (m', f, le'') =
      max_parent_mono nodes nodes' ps (max b l) (max b' l') m h (ground (arith, le, le')) e₂ in
    (m', ground (arith, e', f), le'')

pub max_parent-parents :
    (nodes : List DagNode) (ps : List ℕ) (b m r : ℕ)
    → max_parent nodes ps b ≡ some m
    → b < r
    → ((p l : ℕ) → In p ps → level_at nodes p ≡ some l → l < r)
    → (m < r) × ((p : ℕ) → In p ps → (l : ℕ) × (level_at nodes p ≡ some l))
unfolding max_parent
max_parent-parents nodes [] b m r e lt h = (ground (arith, e, lt), λ p i. absurd i)
max_parent-parents nodes (q ∷ ps) b m r e lt h =
    let (l, e₁, e₂) = >>=-eq-some (level_at nodes q) _ e in
    let lt₁ = h q l (inl refl) e₁ in
    let (below, all) =
      max_parent-parents nodes ps (max b l) m r e₂ (ground (arith, lt, lt₁))
        (λ p k i. h p k (inr i)) in
    (below, λ p i. elim i [ inl s ↦ (l, ap (level_at nodes) s ∙ e₁) | inr i' ↦ all p i' ])
