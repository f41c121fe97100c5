-- ===== src/Inlet/Whole.antt =====
-- What counts as an integer in a schema.
use cogitorium.Prelude.{
  ℕ, ◌+◌, ◌-◌, ◌*◌, ◌≡◌, refl, true, Option, none, some, [], ◌∷◌, inl, inr, Bool-cases, all, Text,
  text_eq, unsigned, atoi-digits, codes, digits_from, digits, is_digit, atoi, ℤ,
}
use cogitorium.Inlet.Json.{Value, number}
use cogitorium.Inlet.Validate.{is_some, is_integer, matches_type}

digits_from-digits : (n : ℕ) (s : Text) {m : ℕ} → digits_from n s ≡ some m → all is_digit s ≡ true
unfolding digits_from
digits_from-digits n [] h = refl
digits_from-digits n (c ∷ s) {m} h = elim (Bool-cases (is_digit c)) [
  | inl e ↦ rw e (digits_from-digits (n * 10 + (c - b'0')) s (rw e at h))
  | inr e ↦ let k : ◌≡◌ {A = Option ℕ} none (some m) = rw e at h in cc
]

digits-all : (s : Text) {m : ℕ} → digits s ≡ some m → all is_digit s ≡ true
unfolding digits
digits-all [] h = cc
digits-all (c ∷ s) h = digits_from-digits 0 (c ∷ s) h

some_of : (o : Option ℤ) → is_some o ≡ true → (i : ℤ) × (o ≡ some i)
some_of none h = cc
some_of (some i) h = (i, refl)

number_of_integer :
    (v : Value)
    → is_integer v ≡ true
    → (n : Text) × (v ≡ number n) × (all is_digit (unsigned n) ≡ true)
unfolding is_integer
number_of_integer (number n) h =
    let (i, e) = some_of (atoi n) h in
    let (m, d) = atoi-digits n e in (n, refl, digits-all (unsigned n) d)
number_of_integer _ h = cc

-- A value passes as an integer only if it is a number written as digits after an optional sign: no
-- number that is written with a point or an exponent does, 3.0 included.
pub integer_is_digits :
    (v : Value)
    → matches_type (codes "integer") v ≡ true
    → (n : Text) × (v ≡ number n) × (all is_digit (unsigned n) ≡ true)
unfolding matches_type text_eq
integer_is_digits v h = number_of_integer v h
