-- ===== src/Secrets/Firm.antt =====
-- A carry that decides whether a value that began in what was put out goes on in it: it is as
-- long as the value less a byte, or it holds a bracket (internal/secrets/redact.go).
use cogitorium.Prelude.{
  ℕ, zero, suc, ◌-◌, ◌≤◌, ◌≡◌, refl, ap, true, List, [], ◌∷◌, ◌++◌, arith, inl, inr, ◌⊎◌,
  Bool-cases, &&-true, all, any, length, ◌==◌, Text, any-append, length-append,
}
use cogitorium.Secrets.Redact.{starts_with, replace_from, replace_each}
use cogitorium.Secrets.Hidden.{
  no_bracket, has_open, starts-cons, cons-starts, starts_nil, replace_hit, replace_miss,
  replace_nil,
}

abbrev pub Firm : ℕ → Text → Type 0
Firm n c = (n ≤ length c) ⊎ (has_open c ≡ true)

-- What begins a longer text begins the firm text at its front.
Firm-after_head :
    (c d n : ℕ) (x : Text) → (c == d) ≡ true → no_bracket c ≡ true → Firm (suc n) (d ∷ x) → Firm n x
Firm-after_head c d n x h k (inl f) = inl (omega (arith, f))
Firm-after_head c d n x h k (inr f) = inr (ground arith)

pub starts-Firm :
    (u x t : Text)
    → all no_bracket u ≡ true
    → Firm (length u) x
    → starts_with u (x ++ t) ≡ true
    → starts_with u x ≡ true
starts-Firm [] x t h f k = starts_nil x
starts-Firm (c ∷ u) [] t h (inl f) k = absurd (omega (arith, f))
starts-Firm (c ∷ u) [] t h (inr f) k = absurd (cc f)
starts-Firm (c ∷ u) (d ∷ x) t h f k =
    let (a, b) = starts-cons c d u (x ++ t) k in
    cons-starts c d u x a (
      starts-Firm u x t (&&-true _ _ h).1 (Firm-after_head c d (length u) x a (&&-true _ _ h).0 f)
        b)

-- A firm text is firm behind whatever was put out before it.
pub Firm-behind : (o c : Text) (d n : ℕ) → Firm (n - 1) c → Firm n (d ∷ (o ++ c))
Firm-behind o c d n (inl f) = inl (omega (arith, f, length-append o c))
Firm-behind o c d n (inr f) = inr (
    ground (
      arith,
      any-append (λ c. c == b'[') o c,
      f,
      Bool-cases (d == b'['),
      Bool-cases (any (λ c. c == b'[') o),
    ))

open_or_same :
    (v s : Text) → (replace_from v zero s ≡ s) ⊎ (has_open (replace_from v zero s) ≡ true)
open_or_same v [] = inl (replace_nil v zero)
open_or_same v (d ∷ s) = elim (Bool-cases (starts_with v (d ∷ s))) [
  | inl e ↦ inr (rw (replace_hit v s d e) refl)
  | inr e ↦ elim (open_or_same v s) [
    | inl q ↦ inl (rw (replace_miss v s d e) (ap (λ t. d ∷ t) q))
    | inr q ↦ inr (rw (replace_miss v s d e) (ground (arith, q)))
  ]
]

open-kept : (v s : Text) → has_open s ≡ true → has_open (replace_from v zero s) ≡ true
open-kept v s h = elim (open_or_same v s) [ inl q ↦ rw q h | inr q ↦ q ]

open-each : (vs : List Text) (s : Text) → has_open s ≡ true → has_open (replace_each vs s) ≡ true
unfolding replace_each
open-each [] s h = h
open-each (v ∷ vs) s h = open-each vs (replace_from v zero s) (open-kept v s h)

-- What the values leave is the text itself, or has a bracket.
open_or_same_each :
    (vs : List Text) (s : Text) → (replace_each vs s ≡ s) ⊎ (has_open (replace_each vs s) ≡ true)
unfolding replace_each
open_or_same_each [] s = inl refl
open_or_same_each (v ∷ vs) s =
    let rest = open_or_same_each vs s in
    elim (open_or_same v s) [
      | inl q ↦ rw q rest
      | inr q ↦ inr (open-each vs (replace_from v zero s) q)
    ]

pub Firm-each : (n : ℕ) (vs : List Text) (s : Text) → Firm n s → Firm n (replace_each vs s)
Firm-each n vs s (inr f) = inr (open-each vs s f)
Firm-each n vs s (inl f) = elim (open_or_same_each vs s) [ inl q ↦ inl (rw q f) | inr q ↦ inr q ]
