-- ===== src/Prelude/Decimal.antt =====
-- Decimal digits, and strconv.Atoi: an optional sign, then digits, within 64 bits.
use Prim.Native.Nat.{ℕ, zero, suc, ◌+◌, ◌-◌, ◌*◌}
use mathlib.Core.Path.{◌≡◌, refl}
use mathlib.Core.Bool.{Bool, ◌&&◌}
use mathlib.Core.Logic.{inl, inr}
use mathlib.Core.Option.{Option, none, some}
use mathlib.Core.List.{[], ◌∷◌}
use cogitorium.Prelude.Tests.{leb, ◌==◌, if◌then◌else◌, Bool-cases}
use cogitorium.Prelude.Strings.{Text, codes}

-- `negsuc n` is -(n + 1).
pub data ℤ : Type 0 where
  pos : ℕ → ℤ
  negsuc : ℕ → ℤ

abbrev pub is_digit : ℕ → Bool
is_digit c = leb b'0' c && leb c b'9'

-- the value of a text of digits read on from `n`; nothing if another character stands there
unfoldable pub digits_from : ℕ → Text → Option ℕ
digits_from n [] = some n
digits_from n (c ∷ s) =
    let rest = digits_from (n * 10 + (c - b'0')) s in if is_digit c then rest else none

-- one digit at least
unfoldable pub digits : Text → Option ℕ
unfolding digits_from
digits [] = none
digits (c ∷ s) = digits_from 0 (c ∷ s)

abbrev pub max_int : ℕ
max_int = 9223372036854775807

abbrev positive : Option ℕ → Option ℤ
positive none = none
positive (some n) = if leb n max_int then some (pos n) else none

abbrev negative : Option ℕ → Option ℤ
negative none = none
negative (some zero) = some (pos 0)
negative (some (suc n)) = if leb n max_int then some (negsuc n) else none

unfoldable pub atoi : Text → Option ℤ
unfolding digits
atoi [] = none
atoi (c ∷ s) =
    if c == b'-'
    then negative (digits s)
    else if c == b'+'
    then positive (digits s)
    else positive (digits (c ∷ s))

positive-some : (o : Option ℕ) {i : ℤ} → positive o ≡ some i → (m : ℕ) × (o ≡ some m)
positive-some none h = cc
positive-some (some n) h = (n, refl)

negative-some : (o : Option ℕ) {i : ℤ} → negative o ≡ some i → (m : ℕ) × (o ≡ some m)
negative-some none h = cc
negative-some (some n) h = (n, refl)

-- what follows an optional sign
abbrev pub unsigned : Text → Text
unsigned [] = []
unsigned (c ∷ s) = if c == b'-' then s else if c == b'+' then s else c ∷ s

-- A text that is read as an integer has digits after an optional sign.
pub atoi-digits : (s : Text) {i : ℤ} → atoi s ≡ some i → (m : ℕ) × (digits (unsigned s) ≡ some m)
unfolding atoi
atoi-digits [] h = cc
atoi-digits (c ∷ s) h = elim (Bool-cases (c == b'-')) [
  | inl e ↦ rw e (negative-some (digits s) (rw e at h))
  | inr e ↦ elim (Bool-cases (c == b'+')) [
    | inl k ↦ rw (e, k) (positive-some (digits s) (rw (e, k) at h))
    | inr k ↦ rw (e, k) (positive-some (digits (c ∷ s)) (rw (e, k) at h))
  ]
]

minus_three : atoi (codes "-3") ≡ some (negsuc 2)
unfolding atoi
minus_three = refl

plus_five : atoi (codes "+5") ≡ some (pos 5)
unfolding atoi
plus_five = refl

too_large : atoi (codes "9223372036854775808") ≡ none
unfolding atoi
too_large = refl

smallest : atoi (codes "-9223372036854775808") ≡ some (negsuc max_int)
unfolding atoi
smallest = refl
