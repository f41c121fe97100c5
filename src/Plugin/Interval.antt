-- ===== src/Plugin/Interval.antt =====
-- The versions that a constraint of internal/plugin/manifest.go takes.
use cogitorium.Prelude.{◌≡◌, refl, sym, ap, ◌∙◌, true}
use cogitorium.Plugin.Version.{
  Version, Ordering, below, same, above, compare, Op, no_op, at_least, over, equal, under, at_most,
  Constraint, meets, satisfied,
}
use cogitorium.Plugin.Comparing.{compare-Lawful, flip}

over_at_least : (o : Ordering) → meets over o ≡ true → meets at_least o ≡ true
over_at_least below h = h
over_at_least same h = refl
over_at_least above h = refl

under_at_most : (o : Ordering) → meets under o ≡ true → meets at_most o ≡ true
under_at_most below h = refl
under_at_most same h = refl
under_at_most above h = h

equal_at_least : (o : Ordering) → meets equal o ≡ true → meets at_least o ≡ true
equal_at_least below h = h
equal_at_least same h = refl
equal_at_least above h = refl

equal_at_most : (o : Ordering) → meets equal o ≡ true → meets at_most o ≡ true
equal_at_most below h = refl
equal_at_most same h = refl
equal_at_most above h = h

-- What a comparison can be, to reason by cases.
module _ (u v w c : Version) (uv : compare u v ≡ below) (vw : compare v w ≡ below) where
  v-above_of : (o : Ordering) → compare v c ≡ o → meets at_least (compare u c) ≡ true → o ≡ above
  v-above_of above h k = refl
  v-above_of below h k = absurd (cc (k, compare-Lawful.trans u v c uv h))
  v-above_of same h k = absurd (cc (k, ap (compare u) (sym (compare-Lawful.same_eq v c h)) ∙ uv))

  v-below_of : (o : Ordering) → compare v c ≡ o → meets at_most (compare w c) ≡ true → o ≡ below
  v-below_of below h k = refl
  v-below_of same h k =
      let e : compare c w ≡ below =
        ap (λ x. compare x w) (sym (compare-Lawful.same_eq v c h)) ∙ vw in
      absurd (cc (k, compare-Lawful.flips c w ∙ ap flip e))
  v-below_of above h k =
      let e : compare c w ≡ below =
        compare-Lawful.trans c v w (compare-Lawful.flips v c ∙ ap flip h) vw in
      absurd (cc (k, compare-Lawful.flips c w ∙ ap flip e))

  v_above : meets at_least (compare u c) ≡ true → compare v c ≡ above
  v_above k = v-above_of (compare v c) refl k

  v_below : meets at_most (compare w c) ≡ true → compare v c ≡ below
  v_below k = v-below_of (compare v c) refl k

  meets-between :
      (o : Op)
      → meets o (compare u c) ≡ true
      → meets o (compare w c) ≡ true
      → meets o (compare v c) ≡ true
  meets-between no_op h k = refl
  meets-between at_least h k = rw (v_above h) refl
  meets-between over h k = rw (v_above (over_at_least (compare u c) h)) refl
  meets-between under h k = rw (v_below (under_at_most (compare w c) k)) refl
  meets-between at_most h k = rw (v_below k) refl
  meets-between equal h k =
      absurd
        (cc (v_above (equal_at_least (compare u c) h), v_below (equal_at_most (compare w c) k)))

-- The versions that a constraint takes are an interval: it takes what stands between two of them.
pub satisfied-between :
    (c : Constraint) (u v w : Version)
    → compare u v ≡ below
    → compare v w ≡ below
    → satisfied c u ≡ true
    → satisfied c w ≡ true
    → satisfied c v ≡ true
unfolding satisfied
satisfied-between c u v w h k a b = meets-between u v w c.bound h k c.op a b
