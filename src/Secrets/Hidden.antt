-- ===== src/Secrets/Hidden.antt =====
-- Where a value stands in a text, before and after a replacement (internal/secrets/redact.go).
use cogitorium.Prelude.{
  ℕ, zero, suc, ◌-◌, ◌≡◌, refl, Bool, true, false, not, ◌&&◌, ◌||◌, List, [], ◌∷◌, ◌++◌, arith, inl,
  inr, Bool-cases, &&-true, any, all, length, ◌==◌, Text, codes, is_empty, Memᴰ,
}
use cogitorium.Secrets.Redact.{placeholder, starts_with, replace_from, replace_each}

-- `v` stands somewhere in the text.
unfoldable pub occurs : Text → Text → Bool
unfolding starts_with
occurs v [] = is_empty v
occurs v (c ∷ s) = starts_with v (c ∷ s) || occurs v s

abbrev pub no_bracket : ℕ → Bool
no_bracket c = not (c == b'[') && not (c == b']')

-- A value that is not empty, has no bracket, and is no part of the word in the placeholder.
pub record IsPlain (v : Text) : Type 0 where
  pub some_text : is_empty v ≡ false
  pub plain : all no_bracket v ≡ true
  pub no_part : occurs v (codes "redacted") ≡ false

abbrev pub has_open : Text → Bool
has_open s = any (λ c. c == b'[') s

pub starts-head :
    (c d : ℕ) (v s : Text)
    → all no_bracket (c ∷ v) ≡ true
    → no_bracket d ≡ false
    → starts_with (c ∷ v) (d ∷ s) ≡ false
unfolding starts_with
starts-head c d v s h k = ground arith

pub replace_hit :
    (v s : Text) (d : ℕ)
    → starts_with v (d ∷ s) ≡ true
    → replace_from v zero (d ∷ s) ≡ placeholder ++ replace_from v (length v - 1) s
unfolding replace_from
replace_hit v s d e = rw (replace_from, e) refl

pub replace_miss :
    (v s : Text) (d : ℕ)
    → starts_with v (d ∷ s) ≡ false
    → replace_from v zero (d ∷ s) ≡ d ∷ replace_from v zero s
unfolding replace_from
replace_miss v s d e = rw (replace_from, e) refl

pub replace_skip : (v s : Text) (k d : ℕ) → replace_from v (suc k) (d ∷ s) ≡ replace_from v k s
unfolding replace_from
replace_skip v s k d = refl

pub replace_nil : (v : Text) (k : ℕ) → replace_from v k [] ≡ []
unfolding replace_from
replace_nil v k = refl

pub starts-cons :
    (c d : ℕ) (u s : Text)
    → starts_with (c ∷ u) (d ∷ s) ≡ true
    → ((c == d) ≡ true) × (starts_with u s ≡ true)
unfolding starts_with
starts-cons c d u s h = &&-true _ _ h

pub cons-starts :
    (c d : ℕ) (u s : Text)
    → (c == d) ≡ true
    → starts_with u s ≡ true
    → starts_with (c ∷ u) (d ∷ s) ≡ true
unfolding starts_with
cons-starts c d u s h k = rw (h, k) refl

pub starts_nil : (s : Text) → starts_with [] s ≡ true
unfolding starts_with
starts_nil s = refl

-- What begins the replaced text begins the text.
pub starts-replaced :
    (u v s : Text)
    → all no_bracket u ≡ true
    → starts_with u (replace_from v zero s) ≡ true
    → starts_with u s ≡ true
starts-replaced [] v s h k = starts_nil s
starts-replaced (c ∷ u) v [] h k = rw (replace_nil v zero) at k
starts-replaced (c ∷ u) v (d ∷ s) h k = elim (Bool-cases (starts_with v (d ∷ s))) [
  | inl e ↦ let q = rw (replace_hit v s d e) at k in absurd (cc (q, starts-head c b'[' u _ h refl))
  | inr e ↦
      let q = rw (replace_miss v s d e) at k in
      let (a, b) = starts-cons c d u _ q in
      cons-starts c d u s a (starts-replaced u v s (&&-true _ _ h).1 b)
]

starts-kept_out :
    (u v s : Text)
    → all no_bracket u ≡ true
    → starts_with u s ≡ false
    → starts_with u (replace_from v zero s) ≡ false
starts-kept_out u v s h k = elim (Bool-cases (starts_with u (replace_from v zero s))) [
  | inl e ↦ absurd (cc (starts-replaced u v s h e, k))
  | inr e ↦ e
]

-- What begins a text that goes on with a bracket stops before the bracket.
starts-before :
    (u p s : Text)
    → all no_bracket u ≡ true
    → starts_with u (p ++ (b']' ∷ s)) ≡ true
    → starts_with u p ≡ true
starts-before [] p s h k = starts_nil p
starts-before (c ∷ u) [] s h k = absurd (cc (k, starts-head c b']' u s h refl))
starts-before (c ∷ u) (d ∷ p) s h k =
    let (a, b) = starts-cons c d u _ k in
    cons-starts c d u p a (starts-before u p s (&&-true _ _ h).1 b)

pub occurs-cons :
    (v s : Text) (c : ℕ)
    → starts_with v (c ∷ s) ≡ false
    → occurs v s ≡ false
    → occurs v (c ∷ s) ≡ false
unfolding occurs
occurs-cons v s c h k = rw (h, k) refl

pub occurs-tail :
    (v s : Text) (c : ℕ)
    → occurs v (c ∷ s) ≡ false
    → (starts_with v (c ∷ s) ≡ false) × (occurs v s ≡ false)
unfolding occurs
occurs-tail v s c h = ground arith

occurs-before :
    (v p s : Text)
    → all no_bracket v ≡ true
    → occurs v p ≡ false
    → occurs v (b']' ∷ s) ≡ false
    → occurs v (p ++ (b']' ∷ s)) ≡ false
occurs-before v [] s h k m = m
occurs-before v (c ∷ p) s h k m =
    let (a, b) = occurs-tail v p c k in
    occurs-cons v _ c
      (elim (Bool-cases (starts_with v (c ∷ (p ++ (b']' ∷ s))))) [
        | inl e ↦ absurd (cc (starts-before v (c ∷ p) s h e, a))
        | inr e ↦ e
      ])
      (occurs-before v p s h b m)

bracket_starts_none :
    (v s : Text) (d : ℕ) → IsPlain v → no_bracket d ≡ false → starts_with v (d ∷ s) ≡ false
bracket_starts_none [] s d p h = absurd (cc p.some_text)
bracket_starts_none (c ∷ v) s d p h = starts-head c d v s p.plain h

occurs-placeholder :
    (v s : Text) → IsPlain v → occurs v s ≡ false → occurs v (placeholder ++ s) ≡ false
occurs-placeholder v s p h =
    occurs-cons v (codes "redacted" ++ (b']' ∷ s)) b'[' (bracket_starts_none v _ b'[' p refl) (
      occurs-before v (codes "redacted") s p.plain p.no_part
        (occurs-cons v s b']' (bracket_starts_none v s b']' p refl) h))

nowhere_in_nil : (v : Text) → IsPlain v → occurs v [] ≡ false
unfolding occurs
nowhere_in_nil v p = p.some_text

-- A replacement brings in no value that was not there,
occurs-kept_out :
    (u v : Text) (k : ℕ) (s : Text)
    → IsPlain u
    → occurs u s ≡ false
    → occurs u (replace_from v k s) ≡ false
occurs-kept_out u v k [] p h = rw (replace_nil v k) h
occurs-kept_out u v (suc k) (d ∷ s) p h =
    rw (replace_skip v s k d) (occurs-kept_out u v k s p (occurs-tail u s d h).1)
occurs-kept_out u v zero (d ∷ s) p h =
    let (a, b) = occurs-tail u s d h in
    elim (Bool-cases (starts_with v (d ∷ s))) [
      | inl e ↦
          rw (replace_hit v s d e)
            (occurs-placeholder u _ p (occurs-kept_out u v (length v - 1) s p b))
      | inr e ↦
          let q : starts_with u (d ∷ replace_from v zero s) ≡ false =
            rw (← replace_miss v s d e) (starts-kept_out u v (d ∷ s) p.plain a) in
          rw (replace_miss v s d e) (occurs-cons u _ d q (occurs-kept_out u v zero s p b))
    ]

-- and leaves none of the value that it replaces.
occurs-replaced : (v : Text) (k : ℕ) (s : Text) → IsPlain v → occurs v (replace_from v k s) ≡ false
occurs-replaced v k [] p = rw (replace_nil v k) (nowhere_in_nil v p)
occurs-replaced v (suc k) (d ∷ s) p = rw (replace_skip v s k d) (occurs-replaced v k s p)
occurs-replaced v zero (d ∷ s) p = elim (Bool-cases (starts_with v (d ∷ s))) [
  | inl e ↦
      rw (replace_hit v s d e) (occurs-placeholder v _ p (occurs-replaced v (length v - 1) s p))
  | inr e ↦
      let q : starts_with v (d ∷ replace_from v zero s) ≡ false =
        rw (← replace_miss v s d e) (starts-kept_out v v (d ∷ s) p.plain e) in
      rw (replace_miss v s d e) (occurs-cons v _ d q (occurs-replaced v zero s p))
]

occurs-each_kept_out :
    (u : Text) (vs : List Text) (s : Text)
    → IsPlain u
    → occurs u s ≡ false
    → occurs u (replace_each vs s) ≡ false
unfolding replace_each
occurs-each_kept_out u [] s p h = h
occurs-each_kept_out u (v ∷ vs) s p h =
    occurs-each_kept_out u vs _ p (occurs-kept_out u v zero s p h)

pub occurs-each :
    (vs : List Text) (v s : Text) → Memᴰ v vs → IsPlain v → occurs v (replace_each vs s) ≡ false
unfolding replace_each
occurs-each [] v s m p = elim m [ ]
occurs-each (w ∷ vs) v s (Memᴰ.head e) p =
    occurs-each_kept_out v vs _ p (rw (← e) (occurs-replaced v zero s p))
occurs-each (w ∷ vs) v s (Memᴰ.tail m) p = occurs-each vs v _ m p
