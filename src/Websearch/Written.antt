-- ===== src/Websearch/Written.antt =====
-- How a host may be written that hostIs (internal/websearch/policy.go) takes for a name.
use mathlib.Core.List.{reverse, reverse-append, reverse-reverse}
use cogitorium.Prelude.{
  ℕ, ◌+◌, ◌≤◌, ◌≡◌, refl, sym, ap, ◌∙◌, true, ◌&&◌, [], ◌∷◌, ◌++◌, ◌==◌, leb, ==_iff, Bool-cases,
  inl, inr, ◌⊎◌, All, All-append, Text, codes, to_lower, to_lower_rune, arith,
}
use cogitorium.Websearch.Authority.{
  is_bracket, drop_brackets, trim_brackets, drop_dot, trim_dot, normal_host,
}

abbrev pub Bracket : ℕ → Type 0
Bracket c = (c ≡ b'[') ⊎ (c ≡ b']')

-- The letter `d`, or what lower case makes of it: a capital, the Kelvin sign for k and the dotted I
-- for i.
pub data FoldsTo (c d : ℕ) : Type 0 where
  itself : c ≡ d → FoldsTo c d
  capital : b'A' ≤ c → c ≤ b'Z' → c + 32 ≡ d → FoldsTo c d
  kelvin : c ≡ 0x212a → b'k' ≡ d → FoldsTo c d
  dotted_i : c ≡ 0x130 → b'i' ≡ d → FoldsTo c d

pub data Folded : Text → Text → Type 0 where
  nothing : Folded [] []
  letter : {c d : ℕ} {s t : Text} → FoldsTo c d → Folded s t → Folded (c ∷ s) (d ∷ t)

-- The name, up to case, with brackets around it and perhaps a dot at its end.
pub record Written (want h : Text) : Type 0 where
  pub front : Text
  pub core : Text
  pub dot : Text
  pub back : Text
  pub parts : h ≡ front ++ ((core ++ dot) ++ back)
  pub brackets : All Bracket front
  pub closing : All Bracket back
  pub one_dot : (dot ≡ []) ⊎ (dot ≡ codes ".")
  pub folded : Folded core want

rune-FoldsTo : (c : ℕ) → FoldsTo c (to_lower_rune c)
unfolding to_lower_rune
rune-FoldsTo c = elim (Bool-cases (leb b'A' c && leb c b'Z')) [
  | inl e ↦ rw e (capital (ground (arith, e)) (ground (arith, e)) refl)
  | inr e ↦ elim (Bool-cases (c == 0x212a)) [
    | inl f ↦ rw (e, f) (kelvin ((==_iff c 0x212a).0 f) refl)
    | inr f ↦ elim (Bool-cases (c == 0x130)) [
      | inl g ↦ rw (e, f, g) (dotted_i ((==_iff c 0x130).0 g) refl)
      | inr g ↦ rw (e, f, g) (itself refl)
    ]
  ]
]

lower-Folded : (s : Text) → Folded s (to_lower s)
unfolding to_lower
lower-Folded [] = nothing
lower-Folded (c ∷ s) = letter (rune-FoldsTo c) (lower-Folded s)

Bracket-of : (c : ℕ) → is_bracket c ≡ true → Bracket c
Bracket-of c h = elim (Bool-cases (c == b'[')) [
  | inl e ↦ inl ((==_iff c b'[').0 e)
  | inr e ↦ inr ((==_iff c b']').0 (rw e at h))
]

drop_brackets-front :
    (s : Text) → (front : Text) × All Bracket front × (s ≡ front ++ drop_brackets s)
unfolding drop_brackets
drop_brackets-front [] = ([], tt, refl)
drop_brackets-front (c ∷ s) =
    let (front, b, e) = drop_brackets-front s in
    elim (Bool-cases (is_bracket c)) [
      | inl h ↦ (c ∷ front, (Bracket-of c h, b), rw h (ap (λ (t : Text). c ∷ t) e))
      | inr h ↦ ([], tt, rw h refl)
    ]

drop_dot-front :
    (s : Text) → (dot : Text) × ((dot ≡ []) ⊎ (dot ≡ codes ".")) × (s ≡ dot ++ drop_dot s)
drop_dot-front [] = ([], inl refl, refl)
drop_dot-front (c ∷ s) = elim (Bool-cases (c == b'.')) [
  | inl e ↦ (codes ".", inr refl, rw e (ap (λ d. d ∷ s) ((==_iff c b'.').0 e)))
  | inr e ↦ ([], inl refl, rw e refl)
]

All-reverse : (s : Text) → All Bracket s → All Bracket (reverse s)
All-reverse [] h = tt
All-reverse (c ∷ s) h =
    rw (reverse-append (c ∷ []) s)
      (All-append Bracket (reverse s) (c ∷ []) (All-reverse s h.1) (h.0, tt))

-- A text that is trimmed at its end, by a trimming of the front of its reverse.
end_of : (s front w : Text) → reverse s ≡ front ++ w → s ≡ reverse w ++ reverse front
end_of s front w e = sym (reverse-reverse s) ∙ ap reverse e ∙ reverse-append front w

trim_brackets-ends :
    (s : Text)
    → (front : Text) × (back : Text) × (All Bracket front)
      × (All Bracket back)
      × (s ≡ front ++ (trim_brackets s ++ back))
unfolding trim_brackets
trim_brackets-ends s =
    let (front, b, e) = drop_brackets-front s in
    let (back, c, f) = drop_brackets-front (reverse (drop_brackets s)) in
    (
      front,
      reverse back,
      b,
      All-reverse back c,
      e
          ∙ ap (λ t. front ++ t)
              (end_of (drop_brackets s) back (drop_brackets (reverse (drop_brackets s))) f),
    )

one_dot-reverse : (dot : Text) → (dot ≡ []) ⊎ (dot ≡ codes ".") → reverse dot ≡ dot
one_dot-reverse dot (inl e) = rw e refl
one_dot-reverse dot (inr e) = rw e refl

trim_dot-end :
    (s : Text) → (dot : Text) × ((dot ≡ []) ⊎ (dot ≡ codes ".")) × (s ≡ trim_dot s ++ dot)
unfolding trim_dot
trim_dot-end s =
    let (dot, k, e) = drop_dot-front (reverse s) in
    (
      dot,
      k,
      end_of s dot (drop_dot (reverse s)) e
          ∙ ap (λ (t : Text). reverse (drop_dot (reverse s)) ++ t) (one_dot-reverse dot k),
    )

pub normal_host-Written : (h want : Text) → normal_host h ≡ want → Written want h
unfolding normal_host
normal_host-Written h want e =
    let (front, back, b, c, p) = trim_brackets-ends h in
    let (dot, k, q) = trim_dot-end (trim_brackets h) in
    record {
      front = front;
      core = trim_dot (trim_brackets h);
      dot = dot;
      back = back;
      parts = p ∙ ap (λ (t : Text). front ++ (t ++ back)) q;
      brackets = b;
      closing = c;
      one_dot = k;
      folded = rw (← e) (lower-Folded (trim_dot (trim_brackets h)));
    }
