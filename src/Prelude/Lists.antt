-- ===== src/Prelude/Lists.antt =====
-- Lists measured, filtered and searched by Boolean tests, over the native numbers.
use Prim.Native.Nat.{ℕ, suc, ◌+◌, ◌≤◌, ◌<◌}
use mathlib.Core.Path.{◌≡◌, refl, sym, ap, ◌∙◌}
use mathlib.Core.Bool.{Bool, true, false, ◌&&◌, ◌||◌}
use mathlib.Core.List.{List, [], ◌∷◌, ◌++◌, Memᴰ}
use mathlib.Core.Option.{Option, none, some}
use native.Mathlib.Omega.{arith}
use mathlib.Core.Logic.{inl, inr}
use cogitorium.Prelude.Tests.{if◌then◌else◌, Bool-cases}

module _ {ℓ} {A : Type ℓ} where
  abbrev pub length : List A → ℕ
  length [] = 0
  length (x ∷ xs) = suc (length xs)

  abbrev pub any : (A → Bool) → List A → Bool
  any p [] = false
  any p (x ∷ xs) = p x || any p xs

  abbrev pub all : (A → Bool) → List A → Bool
  all p [] = true
  all p (x ∷ xs) = p x && all p xs

  abbrev pub find? : (A → Bool) → List A → Option A
  find? p [] = none
  find? p (x ∷ xs) = if p x then some x else find? p xs

  abbrev pub filter : (A → Bool) → List A → List A
  filter p [] = []
  filter p (x ∷ xs) = let rest = filter p xs in if p x then x ∷ rest else rest

  -- How many entries pass the test.
  abbrev pub count : (A → Bool) → List A → ℕ
  count p [] = 0
  count p (x ∷ xs) = (if p x then 1 else 0) + count p xs

  -- A predicate on every entry, read as a tuple.
  abbrev pub All {κ} : (A → Type κ) → List A → Type κ
  All P [] = Unit
  All P (x ∷ xs) = P x × All P xs

  pub length-append : (xs ys : List A) → length (xs ++ ys) ≡ length xs + length ys
  length-append [] ys = omega arith
  length-append (x ∷ xs) ys = omega (arith, length-append xs ys)

  pub count-append : (p : A → Bool) (xs ys : List A) → count p (xs ++ ys) ≡ count p xs + count p ys
  count-append p [] ys = omega arith
  count-append p (x ∷ xs) ys = omega (arith, count-append p xs ys)

  pub count-le-length : (p : A → Bool) (xs : List A) → count p xs ≤ length xs
  count-le-length p [] = omega arith
  count-le-length p (x ∷ xs) = ground (arith, count-le-length p xs)

  -- A stronger test counts no more.
  pub count_mono :
      (p q : A → Bool) (xs : List A) → ((x : A) → p x ≡ true → q x ≡ true) → count p xs ≤ count q xs
  count_mono p q [] h = omega arith
  count_mono p q (x ∷ xs) h = ground (arith, h x, count_mono p q xs h)

  -- Two tests that exclude each other, both within a third.
  pub count_disjoint :
      (p q r : A → Bool) (xs : List A)
      → ((x : A) → p x ≡ true → (q x ≡ false) × (r x ≡ true))
      → ((x : A) → q x ≡ true → r x ≡ true)
      → count p xs + count q xs ≤ count r xs
  count_disjoint p q r [] hp hq = omega arith
  count_disjoint p q r (x ∷ xs) hp hq = ground (arith, hp x, hq x, count_disjoint p q r xs hp hq)

  pub count_pos : (p : A → Bool) (xs : List A) {x : A} → Memᴰ x xs → p x ≡ true → 0 < count p xs
  count_pos p [] m h = elim m [ ]
  count_pos p (y ∷ xs) (Memᴰ.head e) h = ground (arith, ap p e)
  count_pos p (y ∷ xs) (Memᴰ.tail m) h = ground (arith, count_pos p xs m h)

  pub count_ext : (p q : A → Bool) (xs : List A) → ((x : A) → p x ≡ q x) → count p xs ≡ count q xs
  count_ext p q [] h = refl
  count_ext p q (x ∷ xs) h = ground (arith, h x, count_ext p q xs h)

  pub All-of_mem {κ} : (P : A → Type κ) (xs : List A) → ((x : A) → Memᴰ x xs → P x) → All P xs
  All-of_mem P [] h = tt
  All-of_mem P (x ∷ xs) h = (h x (Memᴰ.head refl), All-of_mem P xs (λ y m. h y (Memᴰ.tail m)))

  mem_tail_case :
      (p : A → Bool) (xs : List A) {x y : A}
      → p y ≡ true
      → (Memᴰ x (filter p xs) → Memᴰ x xs × (p x ≡ true))
      → Memᴰ x (y ∷ filter p xs)
      → Memᴰ x (y ∷ xs) × (p x ≡ true)
  mem_tail_case p xs e ih (Memᴰ.head q) = (Memᴰ.head q, ap p q ∙ e)
  mem_tail_case p xs e ih (Memᴰ.tail m) = let (k, h) = ih m in (Memᴰ.tail k, h)

  -- A filtered list holds what passes, and nothing else.
  pub mem_of_mem-filter :
      (p : A → Bool) (xs : List A) {x : A} → Memᴰ x (filter p xs) → Memᴰ x xs × (p x ≡ true)
  mem_of_mem-filter p [] m = elim m [ ]
  mem_of_mem-filter p (y ∷ xs) m = elim (Bool-cases (p y)) [
    | inl e ↦ mem_tail_case p xs e (mem_of_mem-filter p xs) (rw e at m)
    | inr e ↦ let (k, h) = mem_of_mem-filter p xs (rw e at m) in (Memᴰ.tail k, h)
  ]

  pub mem-filter_of_mem :
      (p : A → Bool) (xs : List A) {x : A} → Memᴰ x xs → p x ≡ true → Memᴰ x (filter p xs)
  mem-filter_of_mem p [] m h = elim m [ ]
  mem-filter_of_mem p (y ∷ xs) (Memᴰ.head e) h = rw (← ap p e, h) (Memᴰ.head e)
  mem-filter_of_mem p (y ∷ xs) (Memᴰ.tail m) h = elim (Bool-cases (p y)) [
    | inl e ↦ rw e (Memᴰ.tail (mem-filter_of_mem p xs m h))
    | inr e ↦ rw e (mem-filter_of_mem p xs m h)
  ]

  -- What `find?` returns passes the test and is in the list.
  pub find?-sound :
      (p : A → Bool) (xs : List A) {x : A} → find? p xs ≡ some x → Memᴰ x xs × (p x ≡ true)
  find?-sound p [] h = cc
  find?-sound p (y ∷ xs) {x} h = elim (Bool-cases (p y)) [
    | inl e ↦ let q : y ≡ x = ground arith in (Memᴰ.head (sym q), rw (← q) e)
    | inr e ↦ let (k, g) = find?-sound p xs (rw e at h) in (Memᴰ.tail k, g)
  ]

  pub find?-none : (p : A → Bool) (xs : List A) → find? p xs ≡ none → count p xs ≡ 0
  find?-none p [] h = refl
  find?-none p (x ∷ xs) h = ground (arith, find?-none p xs)

  -- UPDATE ... WHERE on a list of rows
  unfoldable pub update_if : (A → Bool) → (A → A) → List A → List A
  update_if p f [] = []
  update_if p f (x ∷ xs) = (if p x then f x else x) ∷ update_if p f xs

  pub find?-append :
      (p : A → Bool) (xs ys : List A) → find? p xs ≡ none → find? p (xs ++ ys) ≡ find? p ys
  find?-append p [] ys h = refl
  find?-append p (x ∷ xs) ys h = ground (arith, find?-append p xs ys)

  -- A lookup by a test that the rewrite does not change finds the rewritten row.
  pub find?-update_if :
      (p q : A → Bool) (f : A → A) (xs : List A)
      → ((x : A) → p (f x) ≡ p x)
      → find? p (update_if q f xs)
        ≡ elim (find? p xs) [ none ↦ none | some x ↦ some (if q x then f x else x) ]
  unfolding update_if
  find?-update_if p q f [] h = refl
  find?-update_if p q f (x ∷ xs) h = ground (arith, h x, find?-update_if p q f xs h)

  pub All-update_if {κ} :
      (P : A → Type κ) (p : A → Bool) (f : A → A) (xs : List A)
      → ((x : A) → p x ≡ true → P x → P (f x))
      → All P xs
      → All P (update_if p f xs)
  unfolding update_if
  All-update_if P p f [] k h = tt
  All-update_if P p f (x ∷ xs) k h =
      let rest = All-update_if P p f xs k h.1 in
      elim (Bool-cases (p x)) [ inl e ↦ rw e (k x e h.0, rest) | inr e ↦ rw e (h.0, rest) ]

  pub All-update_if-All {κ μ} :
      (P : A → Type κ) (Q : A → Type μ) (p : A → Bool) (f : A → A) (xs : List A)
      → ((x : A) → P x → Q (if p x then f x else x))
      → All P xs
      → All Q (update_if p f xs)
  unfolding update_if
  All-update_if-All P Q p f [] k h = tt
  All-update_if-All P Q p f (x ∷ xs) k h = (k x h.0, All-update_if-All P Q p f xs k h.1)

  pub any-update_if :
      (p q : A → Bool) (f : A → A) (xs : List A)
      → ((x : A) → p (f x) ≡ p x)
      → any p (update_if q f xs) ≡ any p xs
  unfolding update_if
  any-update_if p q f [] h = refl
  any-update_if p q f (x ∷ xs) h = ground (arith, h x, any-update_if p q f xs h)

  pub any-append : (p : A → Bool) (xs ys : List A) → any p (xs ++ ys) ≡ (any p xs || any p ys)
  any-append p [] ys = refl
  any-append p (x ∷ xs) ys = ground (arith, any-append p xs ys)

  -- A filter that keeps every entry that passes a test keeps whether there is one.
  pub any-filter :
      (p q : A → Bool) (xs : List A)
      → ((x : A) → p x ≡ true → q x ≡ true)
      → any p (filter q xs) ≡ any p xs
  any-filter p q [] h = refl
  any-filter p q (x ∷ xs) h = ground (arith, h x, any-filter p q xs h)

  pub count-filter :
      (p q : A → Bool) (xs : List A)
      → ((x : A) → p x ≡ true → q x ≡ true)
      → count p (filter q xs) ≡ count p xs
  count-filter p q [] h = refl
  count-filter p q (x ∷ xs) h = ground (arith, h x, count-filter p q xs h)

  pub All-filter {κ μ} :
      (P : A → Type κ) (Q : A → Type μ) (p : A → Bool) (xs : List A)
      → ((x : A) → p x ≡ true → P x → Q x)
      → All P xs
      → All Q (filter p xs)
  All-filter P Q p [] k h = tt
  All-filter P Q p (x ∷ xs) k h = elim (Bool-cases (p x)) [
    | inl e ↦ rw e (k x e h.0, All-filter P Q p xs k h.1)
    | inr e ↦ rw e (All-filter P Q p xs k h.1)
  ]

  -- A filter that lets the first hit pass leaves it the first hit.
  pub find?-filter :
      (p q : A → Bool) (xs : List A) {x : A}
      → find? p xs ≡ some x
      → q x ≡ true
      → find? p (filter q xs) ≡ some x
  find?-filter p q [] e h = cc
  find?-filter p q (y ∷ xs) {x} e h = elim (Bool-cases (p y)) [
    | inl hit ↦
        let k : y ≡ x = ground arith in
        let pass : q y ≡ true = rw k h in rw pass (rw hit (ap some k))
    | inr miss ↦ ground (arith, find?-filter p q xs {x = x})
  ]

  pub find?-append_hit :
      (p : A → Bool) (xs ys : List A) {x : A} → find? p xs ≡ some x → find? p (xs ++ ys) ≡ some x
  find?-append_hit p [] ys e = cc
  find?-append_hit p (y ∷ xs) ys {x} e = ground (arith, find?-append_hit p xs ys {x = x})

  pub any_of_mem : (p : A → Bool) (xs : List A) {x : A} → Memᴰ x xs → p x ≡ true → any p xs ≡ true
  any_of_mem p [] m h = elim m [ ]
  any_of_mem p (y ∷ xs) (Memᴰ.head e) h = ground (arith, ap p e)
  any_of_mem p (y ∷ xs) (Memᴰ.tail m) h = ground (arith, any_of_mem p xs m h)

  pub All-append {κ} : (P : A → Type κ) (xs ys : List A) → All P xs → All P ys → All P (xs ++ ys)
  All-append P [] ys h k = k
  All-append P (x ∷ xs) ys h k = (h.0, All-append P xs ys h.1 k)

  pub All-mono {κ μ} :
      (P : A → Type κ) (Q : A → Type μ) (xs : List A) → ((x : A) → P x → Q x) → All P xs → All Q xs
  All-mono P Q [] k h = tt
  All-mono P Q (x ∷ xs) k h = (k x h.0, All-mono P Q xs k h.1)

  -- What `find?` returns has every property that all entries have.
  pub All-find? {κ} :
      (P : A → Type κ) (p : A → Bool) (xs : List A) {x : A} → All P xs → find? p xs ≡ some x → P x
  All-find? P p [] h e = cc
  All-find? P p (y ∷ xs) {x} h e = elim (Bool-cases (p y)) [
    | inl q ↦ let k : y ≡ x = ground arith in rw (← k) h.0
    | inr q ↦ All-find? P p xs h.1 (rw q at e)
  ]
