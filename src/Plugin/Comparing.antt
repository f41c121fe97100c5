-- ===== src/Plugin/Comparing.antt =====
-- Laws of Version.Compare in internal/plugin/manifest.go.
use cogitorium.Prelude.{
  ℕ, ◌≡◌, refl, sym, ap, ◌∙◌, true, false, not, [], ◌∷◌, ◌==◌, if◌then◌else◌, Text, text_eq,
  text_ltb, is_empty, text_eq→eq, arith, Bool-cases, inl, inr, ◌⊎◌,
}
use cogitorium.Plugin.Version.{
  Version, Ordering, below, same, above, sign_diff, compare_text, compare,
}

abbrev pub flip : Ordering → Ordering
flip below = above
flip same = same
flip above = below

abbrev and_then : Ordering → Ordering → Ordering
and_then below o = below
and_then same o = o
and_then above o = above

-- A comparison is an order: turned round it says the opposite, it is `same` on equal things only,
-- and it is transitive.
pub record Lawful {ℓ} {A : Type ℓ} (cmp : A → A → Ordering) : Type ℓ where
  pub flips : (x y : A) → cmp y x ≡ flip (cmp x y)
  pub same_eq : (x y : A) → cmp x y ≡ same → x ≡ y
  pub trans : (x y z : A) → cmp x y ≡ below → cmp y z ≡ below → cmp x z ≡ below

abbrev lex {ℓ κ} :
    {A : Type ℓ} {B : Type κ} → (A → A → Ordering) → (B → B → Ordering) → A × B → A × B → Ordering
lex c d p q = and_then (c p.0 q.0) (d p.1 q.1)

sign_diff-Lawful : Lawful sign_diff
sign_diff-Lawful = record {
  flips = λ x y. ground arith;
  same_eq = λ x y h. ground (arith, h);
  trans = λ x y z h k. ground (arith, h, k);
}

text_ltb_trans : (s t u : Text) → text_ltb s t ≡ true → text_ltb t u ≡ true → text_ltb s u ≡ true
unfolding text_ltb
text_ltb_trans s [] u h k = absurd (cc h)
text_ltb_trans s (d ∷ t) [] h k = absurd (cc k)
text_ltb_trans [] (d ∷ t) (e ∷ u) h k = refl
text_ltb_trans (c ∷ s) (d ∷ t) (e ∷ u) h k = ground (arith, text_ltb_trans s t u)

text_ltb_asym : (s t : Text) → text_ltb s t ≡ true → text_ltb t s ≡ false
unfolding text_ltb
text_ltb_asym s [] h = absurd (cc h)
text_ltb_asym [] (d ∷ t) h = refl
text_ltb_asym (c ∷ s) (d ∷ t) h = ground (arith, text_ltb_asym s t)

text_ltb_total : (s t : Text) → text_ltb s t ≡ false → text_ltb t s ≡ false → s ≡ t
unfolding text_ltb
text_ltb_total [] [] h k = refl
text_ltb_total [] (d ∷ t) h k = absurd (cc h)
text_ltb_total (c ∷ s) [] h k = absurd (cc k)
text_ltb_total (c ∷ s) (d ∷ t) h k = ground (arith, text_ltb_total s t)

text_below : (s t : Text) → compare_text s t ≡ below → text_ltb s t ≡ true
unfolding compare_text
text_below s t h = ground arith

compare_text-Lawful : Lawful compare_text
unfolding compare_text
compare_text-Lawful = record {
  flips = λ s t. ground (arith, text_ltb_asym s t);
  same_eq = λ s t h. ground (arith, text_ltb_total s t);
  trans = λ s t u h k. rw (text_ltb_trans s t u (text_below s t h) (text_below t u k)) refl;
}

-- and_then and flip
flip-and_then : (a b : Ordering) → flip (and_then a b) ≡ and_then (flip a) (flip b)
flip-and_then below b = refl
flip-and_then same b = refl
flip-and_then above b = refl

same_both : (a b : Ordering) → and_then a b ≡ same → (a ≡ same) × (b ≡ same)
same_both below b h = absurd (cc h)
same_both same b h = (refl, h)
same_both above b h = absurd (cc h)

below_cases : (a b : Ordering) → and_then a b ≡ below → (a ≡ below) ⊎ ((a ≡ same) × (b ≡ below))
below_cases below b h = inl refl
below_cases same b h = inr (refl, h)
below_cases above b h = absurd (cc h)

module _ {ℓ κ} {A : Type ℓ} {B : Type κ} (c : A → A → Ordering) (d : B → B → Ordering) where
  lex_trans :
      (p q r : A × B)
      → Lawful c
      → Lawful d
      → lex c d p q ≡ below
      → lex c d q r ≡ below
      → lex c d p r ≡ below
  lex_trans p q r k l h m = elim (below_cases (c p.0 q.0) (d p.1 q.1) h) [
    | inl e ↦ elim (below_cases (c q.0 r.0) (d q.1 r.1) m) [
      | inl f ↦ rw (k.trans p.0 q.0 r.0 e f) refl
      | inr f ↦ rw (← k.same_eq q.0 r.0 f.0, e) refl
    ]
    | inr e ↦ elim (below_cases (c q.0 r.0) (d q.1 r.1) m) [
      | inl f ↦ rw (k.same_eq p.0 q.0 e.0, f) refl
      | inr f ↦ rw (k.same_eq p.0 q.0 e.0, f.0) (l.trans p.1 q.1 r.1 e.1 f.1)
    ]
  ]

  lex-Lawful : Lawful c → Lawful d → Lawful (lex c d)
  lex-Lawful k l = record {
    flips =
        λ p q. rw (k.flips p.0 q.0, l.flips p.1 q.1) (sym (flip-and_then (c p.0 q.0) (d p.1 q.1)));
    same_eq = λ p q h.
        let (e, f) = same_both (c p.0 q.0) (d p.1 q.1) h in
        ap (λ x. (x, p.1)) (k.same_eq p.0 q.0 e) ∙ ap (λ y. (q.0, y)) (l.same_eq p.1 q.1 f);
    trans = λ p q r h m. lex_trans p q r k l h m;
  }

own_flip : (a : Ordering) → a ≡ flip a → a ≡ same
own_flip below h = absurd (cc h)
own_flip same h = refl
own_flip above h = absurd (cc h)

pub same_of_Lawful {ℓ} :
    {A : Type ℓ} (cmp : A → A → Ordering) → Lawful cmp → (x : A) → cmp x x ≡ same
same_of_Lawful cmp k x = own_flip (cmp x x) (k.flips x x)

-- the cases of Compare on the prereleases
abbrev compare_pre : Text → Text → Ordering
compare_pre s t =
    if text_eq s t
    then same
    else if is_empty s
    then above
    else if is_empty t
    then below
    else compare_text s t

compare_pre-cons :
    (c d : ℕ) (s t : Text) → compare_pre (c ∷ s) (d ∷ t) ≡ compare_text (c ∷ s) (d ∷ t)
compare_pre-cons c d s t = elim (Bool-cases (text_eq (c ∷ s) (d ∷ t))) [
  | inr e ↦ rw e refl
  | inl e ↦ rw e (
      sym (same_of_Lawful compare_text compare_text-Lawful (c ∷ s))
      ∙ ap (compare_text (c ∷ s)) (text_eq→eq (c ∷ s) (d ∷ t) e))
]

pre-flips : (s t : Text) → compare_pre t s ≡ flip (compare_pre s t)
pre-flips [] [] = unfold text_eq in refl
pre-flips [] (d ∷ t) = unfold text_eq in refl
pre-flips (c ∷ s) [] = unfold text_eq in refl
pre-flips (c ∷ s) (d ∷ t) =
    compare_pre-cons d c t s
    ∙ compare_text-Lawful.flips (c ∷ s) (d ∷ t)
    ∙ ap flip (sym (compare_pre-cons c d s t))

pre-same : (s t : Text) → compare_pre s t ≡ same → s ≡ t
pre-same [] [] h = refl
pre-same [] (d ∷ t) h = absurd (unfold text_eq in cc h)
pre-same (c ∷ s) [] h = absurd (unfold text_eq in cc h)
pre-same (c ∷ s) (d ∷ t) h =
    compare_text-Lawful.same_eq (c ∷ s) (d ∷ t) (sym (compare_pre-cons c d s t) ∙ h)

pre_trans :
    (s t u : Text) → compare_pre s t ≡ below → compare_pre t u ≡ below → compare_pre s u ≡ below
pre_trans [] [] u h k = k
pre_trans [] (d ∷ t) u h k = absurd (unfold text_eq in cc h)
pre_trans (c ∷ s) [] [] h k = h
pre_trans (c ∷ s) [] (e ∷ u) h k = absurd (unfold text_eq in cc k)
pre_trans (c ∷ s) (d ∷ t) [] h k = unfold text_eq in refl
pre_trans (c ∷ s) (d ∷ t) (e ∷ u) h k =
    compare_pre-cons c e s u
    ∙ compare_text-Lawful.trans (c ∷ s) (d ∷ t) (e ∷ u) (sym (compare_pre-cons c d s t) ∙ h)
        (sym (compare_pre-cons d e t u) ∙ k)

compare_pre-Lawful : Lawful compare_pre
compare_pre-Lawful = record { flips = pre-flips; same_eq = pre-same; trans = pre_trans }

diff_first :
    (a b : ℕ) (o : Ordering)
    → (if not (a == b) then sign_diff a b else o) ≡ and_then (sign_diff a b) o
diff_first a b o = ground arith

abbrev by_key : (p q : ℕ × (ℕ × (ℕ × Text))) → Ordering
by_key = lex sign_diff (lex sign_diff (lex sign_diff compare_pre))

by_key-Lawful : Lawful by_key
by_key-Lawful = lex-Lawful sign_diff (lex sign_diff (lex sign_diff compare_pre)) sign_diff-Lawful (
    lex-Lawful sign_diff (lex sign_diff compare_pre) sign_diff-Lawful
      (lex-Lawful sign_diff compare_pre sign_diff-Lawful compare_pre-Lawful))

abbrev key : Version → ℕ × (ℕ × (ℕ × Text))
key v = (v.major, (v.minor, (v.patch, v.pre)))

abbrev of_key : ℕ × (ℕ × (ℕ × Text)) → Version
of_key k = record { major = k.0; minor = k.1.0; patch = k.1.1.0; pre = k.1.1.1 }

compare-by_key : (v o : Version) → compare v o ≡ by_key (key v) (key o)
unfolding compare
compare-by_key v o =
    diff_first v.major o.major (
      if not (v.minor == o.minor)
      then sign_diff v.minor o.minor
      else if not (v.patch == o.patch)
      then sign_diff v.patch o.patch
      else compare_pre v.pre o.pre)
    ∙ ap (and_then (sign_diff v.major o.major)) (
        diff_first v.minor o.minor
          (if not (v.patch == o.patch) then sign_diff v.patch o.patch else compare_pre v.pre o.pre)
        ∙ ap (and_then (sign_diff v.minor o.minor))
            (diff_first v.patch o.patch (compare_pre v.pre o.pre)))

-- Compare orders the versions: turned round it gives the opposite, it gives 0 for equal versions
-- only, and it is transitive.
pub compare-Lawful : Lawful compare
compare-Lawful = record {
  flips = λ v o.
      compare-by_key o v ∙ by_key-Lawful.flips (key v) (key o) ∙ ap flip (sym (compare-by_key v o));
  same_eq =
      λ v o h. ap of_key (by_key-Lawful.same_eq (key v) (key o) (sym (compare-by_key v o) ∙ h));
  trans = λ v o w h k.
      compare-by_key v w
      ∙ by_key-Lawful.trans (key v) (key o) (key w) (sym (compare-by_key v o) ∙ h)
          (sym (compare-by_key o w) ∙ k);
}
