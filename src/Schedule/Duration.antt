-- ===== src/Schedule/Duration.antt =====
-- time.ParseDuration, as internal/schedule/spec.go calls it, in nanoseconds. The contribution of the
-- digits after a decimal point goes through floats: it is the parameter `fraction`, of those digits
-- and the unit.
use cogitorium.Prelude.{
  ℕ, zero, suc, ◌+◌, ◌-◌, ◌*◌, ◌/◌, ◌%◌, ◌≡◌, refl, Bool, true, false, ◌&&◌, ◌||◌, Option, none,
  some, List, [], ◌∷◌, ◌==◌, ltb, if◌then◌else◌, Text, codes, text_eq, is_digit, is_empty, length,
  ℤ, pos, negsuc, max_int,
}

-- 1 << 63, where the sum overflows
abbrev two63 : ℕ
two63 = 9223372036854775808

-- the sum is a uint64
abbrev two64 : ℕ
two64 = 18446744073709551616

abbrev unit_table : List (Text × ℕ)
unit_table =
    (codes "ns", 1)
    ∷ (codes "us", 1000)
    ∷ (codes "µs", 1000)
    ∷ (codes "μs", 1000)
    ∷ (codes "ms", 1000000)
    ∷ (codes "s", 1000000000)
    ∷ (codes "m", 60000000000)
    ∷ (codes "h", 3600000000000)
    ∷ []

unit_in : List (Text × ℕ) → Text → Option ℕ
unit_in [] u = none
unit_in ((name, n) ∷ rest) u = if text_eq name u then some n else unit_in rest u

-- the digits that a text begins with, their value, and the rest
leading_int : ℕ → Text → ℕ × ℕ × Text
leading_int v [] = (0, v, [])
leading_int v (c ∷ s) =
    let (n, w, rest) = leading_int (v * 10 + (c - b'0')) s in
    if is_digit c then (suc n, w, rest) else (0, v, c ∷ s)

leading_digits : Text → Text × Text
leading_digits [] = ([], [])
leading_digits (c ∷ s) =
    let (ds, rest) = leading_digits s in if is_digit c then (c ∷ ds, rest) else ([], c ∷ s)

-- the unit: up to the next digit or point
leading_unit : Text → Text × Text
leading_unit [] = ([], [])
leading_unit (c ∷ s) =
    let (u, rest) = leading_unit s in if is_digit c || c == b'.' then ([], c ∷ s) else (c ∷ u, rest)

-- `(\.[0-9]*)?`
point_part : Text → Text × Text
unfolding leading_digits
point_part [] = ([], [])
point_part (c ∷ s) = if c == b'.' then leading_digits s else ([], c ∷ s)

module _ (fraction : Text → ℕ → ℕ) where
  -- one number with its unit, in nanoseconds, and the rest
  component : Text → Option (ℕ × Text)
  unfolding leading_int point_part leading_unit unit_in
  component s =
      let (pre, v, s1) = leading_int 0 s in
      let (frac, s2) = point_part s1 in
      let (u, s3) = leading_unit s2 in
      if (pre == 0 && is_empty frac) || ltb two63 v || is_empty u
      then none
      else elim (unit_in unit_table u) [
        | none ↦ none
        | some unit ↦
            if ltb (two63 / unit) v
              || ltb two63 (v * unit + (if is_empty frac then 0 else fraction frac unit))
            then none
            else some (v * unit + (if is_empty frac then 0 else fraction frac unit), s3)
      ]

  -- the loop over the components; each takes a character at least, so the text's length is enough
  components : ℕ → ℕ → Text → Option ℕ
  unfolding component
  components fuel d [] = some d
  components zero d (c ∷ s) = none
  components (suc fuel) d (c ∷ s) = elim (component (c ∷ s)) [
    | none ↦ none
    | some (v, rest) ↦
        let sum = (d + v) % two64 in if ltb two63 sum then none else components fuel sum rest
  ]

  abbrev signed : Bool → Option ℕ → Option ℤ
  signed neg none = none
  signed true (some zero) = some (pos 0)
  signed true (some (suc n)) = some (negsuc n)
  signed false (some n) = if ltb max_int n then none else some (pos n)

  -- what follows the sign; a lone 0 needs no unit
  unsigned : Bool → Text → Option ℤ
  unfolding components
  unsigned neg s =
      if text_eq s (codes "0")
      then some (pos 0)
      else if is_empty s
      then none
      else signed neg (components (length s) 0 s)

  unfoldable pub parse_duration : Text → Option ℤ
  unfolding unsigned
  parse_duration [] = none
  parse_duration (c ∷ s) =
      if c == b'-' || c == b'+' then unsigned (c == b'-') s else unsigned false (c ∷ s)

an_hour_and_a_half : parse_duration (λ f u. 0) (codes "1h30m") ≡ some (pos 5400000000000)
unfolding parse_duration text_eq
an_hour_and_a_half = refl

no_unit : parse_duration (λ f u. 0) (codes "15") ≡ none
unfolding parse_duration text_eq
no_unit = refl
