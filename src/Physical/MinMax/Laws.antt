-- ===== src/Physical/MinMax/Laws.antt =====
-- The tracked range is exact, whatever the order in which rows are seen and threads are merged.
use robust.Prelude.{
  ◌≡◌, refl, ap, sym, subst, ◌↔◌, ◌⊎◌, inl, inr, Bool, true, false, Option, none, some, List, [],
  ◌∷◌, arith, if◌then◌else◌, Bool-cases, In,
}
use mathlib.Core.Logic.{⊎_map}
use robust.Engine.{Engine}
use robust.Physical.MinMax.{MinMax, widen, scan_min_max, merge_min_max, typed_update_min_max}

module _ {V F : Type 0} (engine : Engine V F) where
  open engine use {
    less, less-irrefl, less-trans, less-total, is_nan, raw_less, raw_less-less, raw_less-nan,
    less-nan,
  }

  -- `m` is the least and the greatest of the values that `P` holds of.
  pub record Bounds (m : MinMax V) (P : V → Type 0) : Type 0 where
    pub min_in : P m.min_val
    pub max_in : P m.max_val
    pub above : (v : V) → P v → less v m.min_val ≡ false
    pub below : (v : V) → P v → less m.max_val v ≡ false

  abbrev pub IsRange : Option (MinMax V) → (V → Type 0) → Type 0
  IsRange none P = (v : V) → ¬ P v
  IsRange (some m) P = Bounds m P

  pub not-less_trans : (a b c : V) → less a b ≡ false → less b c ≡ false → less a c ≡ false
  not-less_trans a b c h k =
      ground (arith, less-total a b, less-trans b a c, Bool-cases (less b a), Bool-cases (less a c))

  less-asymm : (a b : V) → less a b ≡ true → less b a ≡ false
  less-asymm a b h = ground (arith, less-trans a b a, less-irrefl a, Bool-cases (less b a))

  below_lesser :
      (v a b : V)
      → (less v a ≡ false) ⊎ (less v b ≡ false)
      → less v (if less b a then b else a) ≡ false
  below_lesser v a b (inl h) = ground (arith, not-less_trans v a b, less-asymm b a)
  below_lesser v a b (inr h) = ground (arith, not-less_trans v b a)

  above_greater :
      (v a b : V)
      → (less a v ≡ false) ⊎ (less b v ≡ false)
      → less (if less a b then b else a) v ≡ false
  above_greater v a b (inl h) = ground (arith, not-less_trans b a v, less-asymm a b)
  above_greater v a b (inr h) = ground (arith, not-less_trans a b v)

  chosen_in :
      (P Q : V → Type 0) (b : Bool) (x y : V)
      → P x
      → Q y
      → (P (if b then y else x) ⊎ Q (if b then y else x))
  chosen_in P Q true x y p q = inr q
  chosen_in P Q false x y p q = inl p

  merge-Bounds :
      (m l : MinMax V) (P Q : V → Type 0)
      → Bounds m P
      → Bounds l Q
      → IsRange (merge_min_max engine (some m) (some l)) (λ v. P v ⊎ Q v)
  unfolding merge_min_max
  merge-Bounds m l P Q p q = record {
    min_in = chosen_in P Q (less l.min_val m.min_val) m.min_val l.min_val p.min_in q.min_in;
    max_in = chosen_in P Q (less m.max_val l.max_val) m.max_val l.max_val p.max_in q.max_in;
    above = λ v h. below_lesser v m.min_val l.min_val (⊎_map (p.above v) (q.above v) h);
    below = λ v h. above_greater v m.max_val l.max_val (⊎_map (p.below v) (q.below v) h);
  }

  IsRange-iff :
      (mm : Option (MinMax V)) (P Q : V → Type 0)
      → ((v : V) → P v ↔ Q v)
      → IsRange mm P
      → IsRange mm Q
  IsRange-iff none P Q e r = λ v h. r v ((e v).1 h)
  IsRange-iff (some m) P Q e r = record {
    min_in = (e m.min_val).0 r.min_in;
    max_in = (e m.max_val).0 r.max_in;
    above = λ v h. r.above v ((e v).1 h);
    below = λ v h. r.below v ((e v).1 h);
  }

  -- Merging two exact ranges gives the exact range of both sets of values.
  pub merge-IsRange :
      (a b : Option (MinMax V)) (P Q : V → Type 0)
      → IsRange a P
      → IsRange b Q
      → IsRange (merge_min_max engine a b) (λ v. P v ⊎ Q v)
  unfolding merge_min_max
  merge-IsRange none none P Q p q = λ v h. elim h [ inl x ↦ p v x | inr x ↦ q v x ]
  merge-IsRange (some m) none P Q p q =
      IsRange-iff (some m) P (λ v. P v ⊎ Q v)
        (λ v. (inl, λ h. elim h [ inl x ↦ x | inr x ↦ absurd (q v x) ])) p
  merge-IsRange none (some l) P Q p q =
      IsRange-iff (some l) Q (λ v. P v ⊎ Q v)
        (λ v. (inr, λ h. elim h [ inl x ↦ absurd (p v x) | inr x ↦ x ])) q
  merge-IsRange (some m) (some l) P Q p q = merge-Bounds m l P Q p q

  widen-IsRange :
      (mm : Option (MinMax V)) (v : V) (P : V → Type 0)
      → ((x : V) → P x → is_nan x ≡ false)
      → is_nan v ≡ false
      → IsRange mm P
      → IsRange (some (widen engine mm v)) (λ x. P x ⊎ (x ≡ v))
  unfolding widen merge_min_max
  widen-IsRange none v P plain h r = record {
    min_in = inr refl;
    max_in = inr refl;
    above = λ x h. elim h [ inl y ↦ absurd (r x y) | inr e ↦ rw e (less-irrefl v) ];
    below = λ x h. elim h [ inl y ↦ absurd (r x y) | inr e ↦ rw e (less-irrefl v) ];
  }
  widen-IsRange (some m) v P plain h r =
      let low = raw_less-less v m.min_val h (plain m.min_val r.min_in) in
      let high = raw_less-less m.max_val v (plain m.max_val r.max_in) h in
      rw (low, high)
        (merge-Bounds m (record { min_val = v; max_val = v }) P (λ x. x ≡ v) r
          (record {
            min_in = refl;
            max_in = refl;
            above = λ x e. rw e (less-irrefl v);
            below = λ x e. rw e (less-irrefl v);
          }))

  scan-IsRange :
      (cells : List (Option V)) (mm : Option (MinMax V)) (P : V → Type 0)
      → ((x : V) → P x → is_nan x ≡ false)
      → ((x : V) → In (some x) cells → is_nan x ≡ false)
      → IsRange mm P
      → IsRange (scan_min_max engine mm cells) (λ v. P v ⊎ In (some v) cells)
  unfolding scan_min_max
  scan-IsRange [] mm P plain plains r =
      IsRange-iff mm P _ (λ v. (inl, λ h. elim h [ inl x ↦ x | inr x ↦ absurd x ])) r
  scan-IsRange (none ∷ cells) mm P plain plains r =
      IsRange-iff (scan_min_max engine mm cells) _ _
        (λ v. (
          λ h. elim h [ inl x ↦ inl x | inr x ↦ inr (inr x) ],
          λ h. elim h [ inl x ↦ inl x | inr (inl e) ↦ cc | inr (inr x) ↦ inr x ],
        ))
        (scan-IsRange cells mm P plain (λ x i. plains x (inr i)) r)
  scan-IsRange (some w ∷ cells) mm P plain plains r =
      let first = plains w (inl refl) in
      IsRange-iff (scan_min_max engine (some (widen engine mm w)) cells) _ _
        (λ v. (
          λ h. elim h [
            | inl (inl x) ↦ inl x
            | inl (inr e) ↦ inr (inl (ap some e))
            | inr x ↦ inr (inr x)
          ],
          λ h. elim h [ inl x ↦ inl (inl x) | inr (inl e) ↦ inl (inr (cc)) | inr (inr x) ↦ inr x ],
        ))
        (scan-IsRange cells (some (widen engine mm w)) (λ x. P x ⊎ (x ≡ w))
          (λ x h. elim h [
            | inl p ↦ plain x p
            | inr e ↦ subst (λ (y : V). is_nan y ≡ false) (sym e) first
          ])
          (λ x i. plains x (inr i)) (widen-IsRange mm w P plain first r))

  -- Where no cell of a chunk's column is a NaN, the exact range of a set of values, which is none for the
  -- empty set, becomes the exact range of the set with the values of the column other than NULL.
  pub typed_update-IsRange :
      (cells : List (Option V)) (mm : Option (MinMax V)) (P : V → Type 0)
      → ((v : V) → In (some v) cells → is_nan v ≡ false)
      → IsRange mm P
      → IsRange (typed_update_min_max engine cells mm) (λ v. P v ⊎ In (some v) cells)
  unfolding typed_update_min_max
  typed_update-IsRange cells mm P plains r =
      merge-IsRange mm (scan_min_max engine none cells) P (λ v. In (some v) cells) r
        (IsRange-iff (scan_min_max engine none cells) (λ v. ⊥ ⊎ In (some v) cells)
          (λ v. In (some v) cells) (λ v. (λ h. elim h [ inl x ↦ absurd x | inr x ↦ x ], inr))
          (scan-IsRange cells none (λ v. ⊥) (λ x p. absurd p) plains (λ v h. h)))

  stays_nan :
      (n : V) (cells : List (Option V))
      → is_nan n ≡ true
      → scan_min_max engine (some (record { min_val = n; max_val = n })) cells
        ≡ some (record { min_val = n; max_val = n })
  unfolding scan_min_max widen
  stays_nan n [] h = refl
  stays_nan n (none ∷ cells) h = stays_nan n cells h
  stays_nan n (some v ∷ cells) h =
      let (left, right) = raw_less-nan n v h in rw (left, right) (stays_nan n cells h)

  -- Where the first value of a column is a NaN and some later value is not, the range that the column
  -- gives is not its exact range.
  pub typed_update-nan :
      (n v : V) (cells : List (Option V))
      → is_nan n ≡ true
      → is_nan v ≡ false
      → In (some v) cells
      → ¬ IsRange
          (typed_update_min_max engine (some n ∷ cells) none)
          (λ x. In (some x) (some n ∷ cells))
  unfolding typed_update_min_max merge_min_max scan_min_max widen
  typed_update-nan n v cells h k i r =
      let kept : Bounds (record { min_val = n; max_val = n }) (λ x. In (some x) (some n ∷ cells)) =
        rw (stays_nan n cells h) at r in
      absurd (ground (arith, kept.above v (inr i), less-nan n v h k))
