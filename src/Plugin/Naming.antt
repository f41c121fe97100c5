-- ===== src/Plugin/Naming.antt =====
-- What ParseName accepts, and what it makes of it.
use mathlib.Core.Path.{subst}
use cogitorium.Prelude.{
  ℕ, ◌+◌, ◌≡◌, refl, sym, ap, ◌∙◌, true, false, ◌&&◌, Option, none, some, List, [], ◌∷◌, ◌++◌, ◌==◌,
  leb, Text, codes, text_eq, text_eq→eq, text_eq_refl, ==_iff, ◌≢◌, ◌⊎◌, is_empty, to_lower,
  cut_prefix, split, join, join-split, find?-sound, Bool-cases, Option-cases, inl, inr,
}
use cogitorium.Plugin.Name.{
  Area, area_text, all_areas, area_of, Name, ok, valid_segment, versionish, check_segments, named,
  checked, parse_parts, parse_name, shell, page, stage, drawer, list, row, field, action, empty,
  badge, frag, slot, under, core, direct, alias_text, core_or_direct, under_or_other, split_alias,
}

area_of-text : (t : Text) (a : Area) → area_of t ≡ some a → area_text a ≡ t
unfolding area_of
area_of-text t a h =
    text_eq→eq (area_text a) t (find?-sound (λ b. text_eq (area_text b) t) all_areas h).1

-- segments that the rule allows, and from the third on none that looks like a version
abbrev pub GoodFrom : ℕ → List Text → Type 0
GoodFrom i [] = Unit
GoodFrom i (p ∷ ps) =
    (valid_segment p ≡ true) × ((leb 2 i && versionish p) ≡ false) × GoodFrom (i + 1) ps

check_segments-GoodFrom : (i : ℕ) (ps : List Text) → check_segments i ps ≡ none → GoodFrom i ps
unfolding check_segments
check_segments-GoodFrom i [] h = tt
check_segments-GoodFrom i (p ∷ ps) h = elim (Bool-cases (valid_segment p)) [
  | inr e ↦ cc (rw e at h)
  | inl e ↦ elim (Bool-cases (leb 2 i && versionish p)) [
    | inl k ↦ cc (rw (e, k) at h)
    | inr k ↦ (e, k, check_segments-GoodFrom (i + 1) ps (rw (e, k) at h))
  ]
]

-- What a name that is accepted is made of: its three parts, as written, joined by dots; and every
-- segment is allowed.
abbrev pub Reads : Text → Name → Type 0
Reads s n =
    (n.full ≡ s)
    × (s ≡ n.namespace ++ (b'.' ∷ (area_text n.area ++ (b'.' ∷ n.subject))))
    × GoodFrom 0 (split s b'.')
    × (s ≡ to_lower s)

parse_parts-Reads :
    (s : Text) (ps : List Text) (n : Name)
    → split s b'.' ≡ ps
    → s ≡ to_lower s
    → parse_parts s ps ≡ ok n
    → Reads s n
unfolding join
parse_parts-Reads s [] n e low h = cc
parse_parts-Reads s (p ∷ []) n e low h = cc
parse_parts-Reads s (p ∷ q ∷ []) n e low h = cc
parse_parts-Reads s (p ∷ q ∷ r ∷ rest) n e low h =
    elim (Option-cases (check_segments 0 (p ∷ q ∷ r ∷ rest))) [
      | inr (bad, k) ↦ cc (rw k at h)
      | inl k ↦ elim (Option-cases (area_of q)) [
        | inl u ↦ cc (rw (k, u) at h)
        | inr (a, u) ↦
            let m : Name = record {
              namespace = p;
              area = a;
              subject = join (r ∷ rest) b'.';
              full = s;
            } in
            let same : m ≡ n = cc (rw (k, u) at h) in
            let joined : s ≡ p ++ (b'.' ∷ (q ++ (b'.' ∷ join (r ∷ rest) b'.'))) =
              sym (join-split s b'.') ∙ ap (λ x. join x b'.') e in
            let whole : s ≡ p ++ (b'.' ∷ (area_text a ++ (b'.' ∷ join (r ∷ rest) b'.'))) =
              joined
              ∙ ap (λ x. p ++ (b'.' ∷ (x ++ (b'.' ∷ join (r ∷ rest) b'.'))))
                  (sym (area_of-text q a u)) in
            let good : GoodFrom 0 (split s b'.') =
              rw e (check_segments-GoodFrom 0 (p ∷ q ∷ r ∷ rest) k) in
            subst (Reads s) same (refl, whole, good, low)
      ]
    ]

-- A name that ParseName accepts reads as it was written: namespace, area and subject, joined by
-- dots, give the name back. It is in lower case, each of its segments is one that the rule allows,
-- and none after the area looks like a version.
pub parse_name-Reads : (s : Text) (n : Name) → parse_name s ≡ ok n → Reads s n
unfolding parse_name
parse_name-Reads s n h = elim (Bool-cases (is_empty s)) [
  | inl e ↦ cc (rw e at h)
  | inr e ↦ elim (Bool-cases (text_eq s (to_lower s))) [
    | inr k ↦ cc (rw (e, k) at h)
    | inl k ↦
        parse_parts-Reads s (split s b'.') n refl (text_eq→eq s (to_lower s) k) (rw (e, k) at h)
  ]
]

check_segments_of : (i : ℕ) (ps : List Text) → GoodFrom i ps → check_segments i ps ≡ none
unfolding check_segments
check_segments_of i [] h = refl
check_segments_of i (p ∷ ps) (a, b, h) = rw (a, b) (check_segments_of (i + 1) ps h)

area_of-area_text : (a : Area) → area_of (area_text a) ≡ some a
unfolding area_of text_eq
area_of-area_text shell = refl
area_of-area_text page = refl
area_of-area_text stage = refl
area_of-area_text drawer = refl
area_of-area_text list = refl
area_of-area_text row = refl
area_of-area_text field = refl
area_of-area_text action = refl
area_of-area_text empty = refl
area_of-area_text badge = refl
area_of-area_text frag = refl
area_of-area_text slot = refl

-- ParseName accepts every name in lower case whose segments are a namespace, one of the areas and
-- at least one more, all of them allowed and none after the area like a version; it returns them.
pub parse_name_accepts :
    (s namespace : Text) (a : Area) (first : Text) (rest : List Text)
    → is_empty s ≡ false
    → s ≡ to_lower s
    → split s b'.' ≡ namespace ∷ area_text a ∷ first ∷ rest
    → GoodFrom 0 (namespace ∷ area_text a ∷ first ∷ rest)
    → parse_name s
      ≡ ok
          (record { namespace = namespace; area = a; subject = join (first ∷ rest) b'.'; full = s })
unfolding parse_name
parse_name_accepts s namespace a first rest some_text low e good =
    let same : text_eq s (to_lower s) ≡ true = rw (← low) (text_eq_refl s) in
    rw (some_text, same)
      (ap (parse_parts s) e
        ∙ ap (checked s namespace (area_text a) (first ∷ rest)) (check_segments_of 0 _ good)
        ∙ ap (named s namespace (first ∷ rest)) (area_of-area_text a))

cut_prefix_sound : (s p r : Text) → cut_prefix s p ≡ some r → s ≡ p ++ r
unfolding cut_prefix
cut_prefix_sound s [] r h = cc h
cut_prefix_sound [] (q ∷ p) r h = cc
cut_prefix_sound (c ∷ s) (q ∷ p) r h = elim (Bool-cases (c == q)) [
  | inr e ↦ cc (rw e at h)
  | inl e ↦
      let rest = cut_prefix_sound s p r (rw e at h) in
      let same : c ≡ q = (==_iff c q).0 e in ap (λ x. c ∷ x) rest ∙ ap (λ d. d ∷ p ++ r) same
]

-- SplitAlias takes off just the alias: its text and the name beneath it are the reference, and a
-- reference is taken to be direct only if it begins with neither of the two aliases.
pub split_alias_reads :
    (ref : Text)
    → (ref ≡ alias_text (split_alias ref).0 ++ (split_alias ref).1)
      × (((split_alias ref).0 ≢ direct)
          ⊎ ((cut_prefix ref (alias_text under) ≡ none)
              × (cut_prefix ref (alias_text core) ≡ none)))
unfolding split_alias
split_alias_reads ref = of_under (cut_prefix ref (codes "under:")) refl
  where
    of_core :
        (c : Option Text)
        → cut_prefix ref (codes "under:") ≡ none
        → cut_prefix ref (codes "core:") ≡ c
        → (ref ≡ alias_text (core_or_direct ref c).0 ++ (core_or_direct ref c).1)
          × (((core_or_direct ref c).0 ≢ direct)
              ⊎ ((cut_prefix ref (codes "under:") ≡ none)
                  × (cut_prefix ref (codes "core:") ≡ none)))
    of_core none p q = (refl, inr (p, q))
    of_core (some name) p q = (cut_prefix_sound ref (codes "core:") name q, inl (λ e. cc))

    of_under :
        (u : Option Text)
        → cut_prefix ref (codes "under:") ≡ u
        → (ref ≡ alias_text (under_or_other ref u).0 ++ (under_or_other ref u).1)
          × (((under_or_other ref u).0 ≢ direct)
              ⊎ ((cut_prefix ref (codes "under:") ≡ none)
                  × (cut_prefix ref (codes "core:") ≡ none)))
    of_under (some name) p = (cut_prefix_sound ref (codes "under:") name p, inl (λ e. cc))
    of_under none p = of_core (cut_prefix ref (codes "core:")) p refl
