-- ===== src/Prelude/Trim.antt =====
-- strings.TrimSpace trims once and for all.
use mathlib.Core.Path.{◌≡◌, refl, sym, ap, ◌∙◌}
use mathlib.Core.Bool.{Bool, true, not}
use mathlib.Core.List.{[], ◌∷◌, ◌++◌, reverse, reverse-append, reverse-reverse}
use mathlib.Core.Logic.{inl, inr}
use native.Mathlib.Omega.{arith}
use cogitorium.Prelude.Tests.{Bool-cases}
use cogitorium.Prelude.Strings.{Text, is_space, trim_left, trim_space}

-- The text does not begin with a space.
abbrev starts_plain : Text → Bool
starts_plain [] = true
starts_plain (c ∷ s) = not (is_space c)

trim_left-starts : (s : Text) → starts_plain (trim_left s) ≡ true
unfolding trim_left
trim_left-starts [] = refl
trim_left-starts (c ∷ s) = elim (Bool-cases (is_space c)) [
  | inl e ↦ rw e (trim_left-starts s)
  | inr e ↦ rw e (ap not e)
]

trim_left_plain : (s : Text) → starts_plain s ≡ true → trim_left s ≡ s
unfolding trim_left
trim_left_plain [] h = refl
trim_left_plain (c ∷ s) h = ground arith

trim_left-suffix : (s : Text) → (spaces : Text) × (s ≡ spaces ++ trim_left s)
unfolding trim_left
trim_left-suffix [] = ([], refl)
trim_left-suffix (c ∷ s) =
    let (spaces, e) = trim_left-suffix s in
    elim (Bool-cases (is_space c)) [
      | inl k ↦ rw k (c ∷ spaces, ap (λ (t : Text). c ∷ t) e)
      | inr k ↦ rw k ([], refl)
    ]

plain-append : (s t : Text) → starts_plain (s ++ t) ≡ true → starts_plain s ≡ true
plain-append [] t h = refl
plain-append (c ∷ s) t h = h

-- What is left of a text that begins plainly, trimmed at its end, begins plainly.
plain_after :
    (t : Text) → starts_plain t ≡ true → starts_plain (reverse (trim_left (reverse t))) ≡ true
plain_after t h =
    let (spaces, e) = trim_left-suffix (reverse t) in
    let u = trim_left (reverse t) in
    let whole : t ≡ reverse u ++ reverse spaces =
      sym (reverse-reverse t) ∙ ap reverse e ∙ reverse-append spaces u in
    plain-append (reverse u) (reverse spaces) (rw whole at h)

pub trim_space_idem : (s : Text) → trim_space (trim_space s) ≡ trim_space s
unfolding trim_space
trim_space_idem s =
    let t = trim_left s in
    let u = trim_left (reverse t) in
    rw
      (
        trim_left_plain (reverse u) (plain_after t (trim_left-starts s)),
        reverse-reverse u,
        trim_left_plain u (trim_left-starts (reverse t)),
      )
      refl
