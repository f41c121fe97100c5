-- ===== src/Secrets/Across.antt =====
-- What a chunk brings to the text that was put out before it (Chunk in internal/secrets/redact.go).
use cogitorium.Prelude.{
  ℕ, zero, ◌-◌, ◌≡◌, refl, ap, true, false, List, [], ◌∷◌, ◌++◌, inl, inr, Bool-cases, &&-true, all,
  length, Text,
}
use cogitorium.Secrets.Redact.{starts_with, replace_from, replace_each}
use cogitorium.Secrets.Hidden.{
  occurs, no_bracket, starts-cons, cons-starts, starts_nil, starts-replaced, occurs-cons,
  occurs-tail,
}
use cogitorium.Secrets.Firm.{Firm, starts-Firm, Firm-behind}

-- What begins a text put out and goes on in a replaced one does so in the one it was made from.
starts-replaced_behind :
    (u o v s : Text)
    → all no_bracket u ≡ true
    → starts_with u (o ++ replace_from v zero s) ≡ true
    → starts_with u (o ++ s) ≡ true
starts-replaced_behind u [] v s h k = starts-replaced u v s h k
starts-replaced_behind [] (d ∷ o) v s h k = starts_nil (d ∷ (o ++ s))
starts-replaced_behind (c ∷ u) (d ∷ o) v s h k =
    let (a, b) = starts-cons c d u (o ++ replace_from v zero s) k in
    cons-starts c d u (o ++ s) a (starts-replaced_behind u o v s (&&-true _ _ h).1 b)

starts-each_behind :
    (u o : Text) (vs : List Text) (s : Text)
    → all no_bracket u ≡ true
    → starts_with u (o ++ replace_each vs s) ≡ true
    → starts_with u (o ++ s) ≡ true
unfolding replace_each
starts-each_behind u o [] s h k = k
starts-each_behind u o (v ∷ vs) s h k =
    starts-replaced_behind u o v s h (starts-each_behind u o vs (replace_from v zero s) h k)

pub append_assoc : (o c t : Text) → o ++ (c ++ t) ≡ (o ++ c) ++ t
append_assoc [] c t = refl
append_assoc (d ∷ o) c t = ap (λ s. d ∷ s) (append_assoc o c t)

pub append_nil : (o : Text) → o ++ [] ≡ o
append_nil [] = refl
append_nil (d ∷ o) = ap (λ s. d ∷ s) (append_nil o)

starts_nowhere :
    (v o c t : Text) (vs : List Text) (d : ℕ)
    → all no_bracket v ≡ true
    → Firm (length v - 1) c
    → starts_with v (d ∷ (o ++ c)) ≡ false
    → starts_with v (d ∷ (o ++ replace_each vs (c ++ t))) ≡ false
starts_nowhere v o c t vs d h f k =
    elim (Bool-cases (starts_with v (d ∷ (o ++ replace_each vs (c ++ t))))) [
      | inl e ↦
          let q = starts-each_behind v (d ∷ o) vs (c ++ t) h e in
          let r : starts_with v (d ∷ ((o ++ c) ++ t)) ≡ true = rw (← append_assoc o c t) q in
          absurd (cc (starts-Firm v (d ∷ (o ++ c)) t h (Firm-behind o c d (length v) f) r, k))
      | inr e ↦ e
    ]

-- No value stands across what was put out and what the next chunk makes of the carry.
pub occurs-across :
    (v o c t : Text) (vs : List Text)
    → all no_bracket v ≡ true
    → Firm (length v - 1) c
    → occurs v (replace_each vs (c ++ t)) ≡ false
    → occurs v (o ++ c) ≡ false
    → occurs v (o ++ replace_each vs (c ++ t)) ≡ false
occurs-across v [] c t vs h f m k = m
occurs-across v (d ∷ o) c t vs h f m k =
    let (a, b) = occurs-tail v (o ++ c) d k in
    occurs-cons v _ d (starts_nowhere v o c t vs d h f a) (occurs-across v o c t vs h f m b)
