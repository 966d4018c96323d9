-- ===== src/Optimizer/Dag/Levels/Ranks.antt =====
-- The order in which the loop of `BuildPhysicalPlanDAG` of src/optimizer/robust_optimizer.cpp first
-- sets the levels: a parent's level is set before its child's.
use robust.Prelude.{
  ℕ, suc, ◌≤◌, ◌<◌, ◌≡◌, refl, sym, ap, ◌∙◌, subst, ◌≢◌, ◌⊎◌, inl, inr, false, none, some, List, [],
  ◌∷◌, arith, ◌==◌, if◌then◌else◌, ==_iff, ==_refl, Bool-cases, Option-cases, >>=-eq-some, In,
}
use mathlib.Core.Option.{some-injective}
use robust.Optimizer.Dag.{DagNode}
use robust.Optimizer.Dag.Levels.{level_at, parents_at, put_level, max_parent, new_level, is_level}
use robust.Optimizer.Dag.Levels.Laws.{
  level_at-put_level, parents_at-put_level, weight, total, total-put_level, one, count,
  count-put_level, max_parent_mono, max_parent-parents,
}

-- Levels stay set and never fall.
abbrev pub IsGrown : List DagNode → List DagNode → Type 0
IsGrown nodes nodes' =
    (i l : ℕ) → level_at nodes i ≡ some l → (l' : ℕ) × (level_at nodes' i ≡ some l') × (l ≤ l')

-- The ranks count the nodes in the order in which their levels were set.
pub record IsRanked (nodes : List DagNode) (rank : ℕ → ℕ) : Type 0 where
  pub low : (i l : ℕ) → level_at nodes i ≡ some l → (l ≤ rank i) × (rank i < count nodes)
  pub roots : (i : ℕ) → parents_at nodes i ≡ some [] → level_at nodes i ≡ some 0
  pub above :
      (i l : ℕ) (ps : List ℕ) (p : ℕ)
      → level_at nodes i ≡ some l
      → parents_at nodes i ≡ some ps
      → In p ps
      → (k : ℕ) × (level_at nodes p ≡ some k) × (rank p < rank i)
  pub rising :
      (i l p : ℕ) (ps : List ℕ)
      → level_at nodes i ≡ some l
      → parents_at nodes i ≡ some (p ∷ ps)
      → (m : ℕ) × (new_level nodes (p ∷ ps) ≡ some m) × (l ≤ m)

new_level_mono :
    (nodes nodes' : List DagNode) (ps : List ℕ) (m : ℕ)
    → IsGrown nodes nodes'
    → new_level nodes ps ≡ some m
    → (m' : ℕ) × (new_level nodes' ps ≡ some m') × (m ≤ m')
unfolding new_level
new_level_mono nodes nodes' [] m h e = absurd (ground (arith, e))
new_level_mono nodes nodes' (p ∷ ps) m h e =
    let (k, e₁, e₂) = >>=-eq-some (max_parent nodes (p ∷ ps) 0) _ e in
    let (k', e', le) = max_parent_mono nodes nodes' (p ∷ ps) 0 0 k h (ground arith) e₁ in
    (suc k', ground (arith, e'), ground (arith, le, e₂))

put_level-IsGrown :
    (nodes : List DagNode) (i l : ℕ) (ps : List ℕ)
    → parents_at nodes i ≡ some ps
    → ((k : ℕ) → level_at nodes i ≡ some k → k ≤ l)
    → IsGrown nodes (put_level i (some l) nodes)
put_level-IsGrown nodes i l ps at up j k e = elim (Bool-cases (i == j)) [
  | inl h ↦ (
    l,
    ground (arith, h, level_at-put_level nodes i j ps (some l) at),
    up k (ap (level_at nodes) ((==_iff i j).0 h) ∙ e),
  )
  | inr h ↦ (k, ground (arith, h, e, level_at-put_level nodes i j ps (some l) at), ground arith)
]

-- a level that is read after a write
level_written :
    (nodes : List DagNode) (i l j k : ℕ) (ps : List ℕ)
    → parents_at nodes i ≡ some ps
    → level_at (put_level i (some l) nodes) j ≡ some k
    → ((i ≡ j) × (l ≡ k)) ⊎ (level_at nodes j ≡ some k)
level_written nodes i l j k ps at e = elim (Bool-cases (i == j)) [
  | inl h ↦
      inl ((==_iff i j).0 h, ground (arith, h, e, level_at-put_level nodes i j ps (some l) at))
  | inr h ↦ inr (ground (arith, h, e, level_at-put_level nodes i j ps (some l) at))
]

-- What a write needs of the ranks after it.
record IsStep (nodes : List DagNode) (i l : ℕ) (ps : List ℕ) (rank rank' : ℕ → ℕ) : Type 0 where
  at : parents_at nodes i ≡ some ps
  next : new_level nodes ps ≡ some l
  up : (k : ℕ) → level_at nodes i ≡ some k → k ≤ l
  agree : (j k : ℕ) → level_at nodes j ≡ some k → rank' j ≡ rank j
  own : (l ≤ rank' i) × (rank' i < count (put_level i (some l) nodes))
  more : count nodes ≤ count (put_level i (some l) nodes)
  set_parents : (p : ℕ) → In p ps → (k : ℕ) × (level_at nodes p ≡ some k) × (rank' p < rank' i)

no_root : (nodes : List DagNode) (l : ℕ) (ps : List ℕ) → new_level nodes ps ≡ some l → ps ≢ []
unfolding new_level
no_root nodes l ps e h = absurd (ground (arith, e, ap (new_level nodes) h))

step-IsRanked :
    (nodes : List DagNode) (i l : ℕ) (ps : List ℕ) (rank rank' : ℕ → ℕ)
    → IsRanked nodes rank
    → IsStep nodes i l ps rank rank'
    → IsRanked (put_level i (some l) nodes) rank'
step-IsRanked nodes i l ps rank rank' w s =
    let nodes' = put_level i (some l) nodes in
    let grown = put_level-IsGrown nodes i l ps s.at s.up in
    record {
      low = λ j k e. elim (level_written nodes i l j k ps s.at e) [
        | inl (h, h') ↦ let same : rank' i ≡ rank' j = ap rank' h in ground (arith, s.own, h', same)
        | inr e' ↦ ground (arith, w.low j k e', s.agree j k e', s.more)
      ];
      roots = λ j f.
          let f' : parents_at nodes j ≡ some [] =
            sym (parents_at-put_level nodes i j (some l)) ∙ f in
          elim (Bool-cases (i == j)) [
            | inl h ↦ absurd (
                no_root nodes l ps s.next
                  (some-injective ps [] (sym s.at ∙ ap (parents_at nodes) ((==_iff i j).0 h) ∙ f')))
            | inr h ↦ ground (arith, h, w.roots j f', level_at-put_level nodes i j ps (some l) s.at)
          ];
      above = λ j k qs p e f m.
          let f' : parents_at nodes j ≡ some qs =
            sym (parents_at-put_level nodes i j (some l)) ∙ f in
          elim (level_written nodes i l j k ps s.at e) [
            | inl (h, h') ↦
                let qs≡ps : ps ≡ qs =
                  some-injective ps qs (sym s.at ∙ ap (parents_at nodes) h ∙ f') in
                let (c, g, lt) = s.set_parents p (subst (λ (x : List ℕ). In p x) (sym qs≡ps) m) in
                let (c', g', _) = grown p c g in
                let same : rank' i ≡ rank' j = ap rank' h in (c', g', ground (arith, lt, same))
            | inr e' ↦
                let (c, g, lt) = w.above j k qs p e' f' m in
                let (c', g', _) = grown p c g in
                (c', g', ground (arith, lt, s.agree j k e', s.agree p c g))
          ];
      rising = λ j k q qs e f.
          let f' : parents_at nodes j ≡ some (q ∷ qs) =
            sym (parents_at-put_level nodes i j (some l)) ∙ f in
          elim (level_written nodes i l j k ps s.at e) [
            | inl (h, h') ↦
                let same : ps ≡ q ∷ qs =
                  some-injective ps (q ∷ qs) (sym s.at ∙ ap (parents_at nodes) h ∙ f') in
                let (c, g, le) =
                  new_level_mono nodes nodes' (q ∷ qs) l grown
                    (ap (new_level nodes) (sym same) ∙ s.next) in
                (c, g, ground (arith, le, h'))
            | inr e' ↦
                let (c, g, le) = w.rising j k q qs e' f' in
                let (c', g', le') = new_level_mono nodes nodes' (q ∷ qs) c grown g in
                (c', g', ground (arith, le, le'))
          ];
    }

-- The parents' levels lie below a bound: so does their greatest, one less than the new level.
new_level-parents :
    (nodes : List DagNode) (ps : List ℕ) (l r : ℕ)
    → new_level nodes ps ≡ some l
    → ((p k : ℕ) → In p ps → level_at nodes p ≡ some k → k < r)
    → (l ≤ r) × ((p : ℕ) → In p ps → (k : ℕ) × (level_at nodes p ≡ some k))
unfolding new_level max_parent
new_level-parents nodes [] l r e h = absurd (ground (arith, e))
new_level-parents nodes (p ∷ ps) l r e h =
    let (m, e₁, e₂) = >>=-eq-some (max_parent nodes (p ∷ ps) 0) _ e in
    let (c, e₃, _) = >>=-eq-some (level_at nodes p) _ e₁ in
    let (below, all) =
      max_parent-parents nodes (p ∷ ps) 0 m r e₁ (ground (arith, h p c (inl refl) e₃)) h in
    (ground (arith, below, e₂), all)

-- A node that has a level is raised.
raised :
    (nodes : List DagNode) (i l k : ℕ) (ps : List ℕ) (rank : ℕ → ℕ)
    → IsRanked nodes rank
    → parents_at nodes i ≡ some ps
    → new_level nodes ps ≡ some l
    → level_at nodes i ≡ some k
    → k ≤ l
unfolding new_level
raised nodes i l k [] rank w at next e = absurd (ground (arith, next))
raised nodes i l k (p ∷ ps) rank w at next e =
    let (m, f, le) = w.rising i k p ps e at in ground (arith, le, some-injective m l (sym f ∙ next))

again-IsStep :
    (nodes : List DagNode) (i l k : ℕ) (ps : List ℕ) (rank : ℕ → ℕ)
    → IsRanked nodes rank
    → parents_at nodes i ≡ some ps
    → new_level nodes ps ≡ some l
    → level_at nodes i ≡ some k
    → IsStep nodes i l ps rank rank
unfolding one
again-IsStep nodes i l k ps rank w at next e =
    let le = raised nodes i l k ps rank w at next e in
    let kept = count-put_level nodes i ps l at in
    let bound =
      new_level-parents nodes ps l (rank i) next
        (λ p c m f. ground (arith, w.low p c f, w.above i k ps p e at m)) in
    record {
      at = at;
      next = next;
      up = λ c f. ground (arith, le, e, f);
      agree = λ j c f. refl;
      own = ground (arith, bound.0, w.low i k e, kept, e);
      more = ground (arith, kept, e);
      set_parents = λ p m. w.above i k ps p e at m;
    }

first_rank : ℕ → ℕ → (ℕ → ℕ) → ℕ → ℕ
first_rank i n rank j = if i == j then n else rank j

first-IsStep :
    (nodes : List DagNode) (i l : ℕ) (ps : List ℕ) (rank : ℕ → ℕ)
    → IsRanked nodes rank
    → parents_at nodes i ≡ some ps
    → new_level nodes ps ≡ some l
    → level_at nodes i ≡ none
    → IsStep nodes i l ps rank (first_rank i (count nodes) rank)
unfolding one first_rank
first-IsStep nodes i l ps rank w at next e =
    let kept = count-put_level nodes i ps l at in
    let other : (j k : ℕ) → level_at nodes j ≡ some k → (i == j) ≡ false = λ j k f.
      elim (Bool-cases (i == j)) [
        | inl h ↦
            let f' : level_at nodes i ≡ some k = ap (level_at nodes) ((==_iff i j).0 h) ∙ f in
            absurd (ground (arith, e, f'))
        | inr h ↦ h
      ] in
    let bound =
      new_level-parents nodes ps l (count nodes) next (λ p c m f. ground (arith, w.low p c f)) in
    record {
      at = at;
      next = next;
      up = λ c f. absurd (ground (arith, e, f));
      agree = λ j c f. ground (arith, other j c f);
      own = ground (arith, bound.0, kept, e, ==_refl i);
      more = ground (arith, kept, e);
      set_parents = λ p m.
          let (c, f) = bound.1 p m in (c, f, ground (arith, other p c f, ==_refl i, w.low p c f));
    }

pub raise-IsRanked :
    (nodes : List DagNode) (i l : ℕ) (ps : List ℕ) (rank : ℕ → ℕ)
    → IsRanked nodes rank
    → parents_at nodes i ≡ some ps
    → new_level nodes ps ≡ some l
    → is_level l (level_at nodes i) ≡ false
    → (rank' : ℕ → ℕ) × IsRanked (put_level i (some l) nodes) rank'
      × (total nodes < total (put_level i (some l) nodes))
unfolding is_level weight
raise-IsRanked nodes i l ps rank w at next new = elim (Option-cases (level_at nodes i)) [
  | inl e ↦ (
    first_rank i (count nodes) rank,
    step-IsRanked nodes i l ps rank _ w (first-IsStep nodes i l ps rank w at next e),
    ground (arith, e, total-put_level nodes i ps (some l) at),
  )
  | inr (k, e) ↦ (
    rank,
    step-IsRanked nodes i l ps rank rank w (again-IsStep nodes i l k ps rank w at next e),
    ground (
      arith,
      e,
      new,
      raised nodes i l k ps rank w at next e,
      total-put_level nodes i ps (some l) at,
    ),
  )
]
