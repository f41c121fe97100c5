-- ===== src/Prelude/Sorting.antt =====
-- Sorting by a Boolean order, and what a sort, a filter and a map leave of a count.
use Prim.Native.Nat.{ℕ, ◌+◌}
use mathlib.Core.Path.{◌≡◌, refl, ap}
use mathlib.Core.Bool.{Bool, ◌&&◌}
use mathlib.Core.List.{List, [], ◌∷◌, map, Memᴰ}
use mathlib.Core.Logic.{inl, inr}
use native.Mathlib.Omega.{arith}
use cogitorium.Prelude.Tests.{if◌then◌else◌, Bool-cases}
use cogitorium.Prelude.Lists.{count, filter, All}

module _ {ℓ} {A : Type ℓ} where
  abbrev pub insert_by : (A → A → Bool) → A → List A → List A
  insert_by lt x [] = x ∷ []
  insert_by lt x (y ∷ ys) = let rest = insert_by lt x ys in if lt y x then y ∷ rest else x ∷ y ∷ ys

  -- A stable sort by a strict order, as ORDER BY and sort.SliceStable give it.
  abbrev pub sort_by : (A → A → Bool) → List A → List A
  sort_by lt [] = []
  sort_by lt (x ∷ xs) = insert_by lt x (sort_by lt xs)

  count-insert_by :
      (p : A → Bool) (lt : A → A → Bool) (x : A) (xs : List A)
      → count p (insert_by lt x xs) ≡ count p (x ∷ xs)
  count-insert_by p lt x [] = refl
  count-insert_by p lt x (y ∷ ys) = ground (arith, count-insert_by p lt x ys)

  pub count-sort_by :
      (p : A → Bool) (lt : A → A → Bool) (xs : List A) → count p (sort_by lt xs) ≡ count p xs
  count-sort_by p lt [] = refl
  count-sort_by p lt (x ∷ xs) =
      ground (arith, count-insert_by p lt x (sort_by lt xs), count-sort_by p lt xs)

  pub count-filter_and :
      (p q : A → Bool) (xs : List A) → count q (filter p xs) ≡ count (λ x. p x && q x) xs
  count-filter_and p q [] = refl
  count-filter_and p q (x ∷ xs) = elim (Bool-cases (p x)) [
    | inl e ↦ rw e (ap (λ (n : ℕ). (if q x then 1 else 0) + n) (count-filter_and p q xs))
    | inr e ↦ rw e (ground (arith, count-filter_and p q xs))
  ]

  All-insert_by {κ} :
      (P : A → Type κ) (lt : A → A → Bool) (x : A) (xs : List A)
      → P x
      → All P xs
      → All P (insert_by lt x xs)
  All-insert_by P lt x [] p h = (p, tt)
  All-insert_by P lt x (y ∷ ys) p h =
      let rest = All-insert_by P lt x ys p h.1 in
      elim (Bool-cases (lt y x)) [ inl e ↦ rw e (h.0, rest) | inr e ↦ rw e (p, h) ]

  pub All-sort_by {κ} :
      (P : A → Type κ) (lt : A → A → Bool) (xs : List A) → All P xs → All P (sort_by lt xs)
  All-sort_by P lt [] h = tt
  All-sort_by P lt (x ∷ xs) h = All-insert_by P lt x (sort_by lt xs) h.0 (All-sort_by P lt xs h.1)

pub count-map {ℓ κ} :
    {A : Type ℓ} {B : Type κ} (q : B → Bool) (f : A → B) (xs : List A)
    → count q (map f xs) ≡ count (λ x. q (f x)) xs
count-map q f [] = refl
count-map q f (x ∷ xs) = ground (arith, count-map q f xs)

module _ {ℓ} {A : Type ℓ} (lt : A → A → Bool) where
  mem-insert_by_here : (x : A) (xs : List A) → Memᴰ x (insert_by lt x xs)
  mem-insert_by_here x [] = Memᴰ.head refl
  mem-insert_by_here x (y ∷ ys) = elim (Bool-cases (lt y x)) [
    | inl e ↦ rw e (Memᴰ.tail (mem-insert_by_here x ys))
    | inr e ↦ rw e (Memᴰ.head refl)
  ]

  mem-insert_by : (x : A) (xs : List A) {z : A} → Memᴰ z xs → Memᴰ z (insert_by lt x xs)
  mem-insert_by x [] m = elim m [ ]
  mem-insert_by x (y ∷ ys) (Memᴰ.head e) = elim (Bool-cases (lt y x)) [
    | inl h ↦ rw h (Memᴰ.head e)
    | inr h ↦ rw h (Memᴰ.tail (Memᴰ.head e))
  ]
  mem-insert_by x (y ∷ ys) (Memᴰ.tail m) = elim (Bool-cases (lt y x)) [
    | inl h ↦ rw h (Memᴰ.tail (mem-insert_by x ys m))
    | inr h ↦ rw h (Memᴰ.tail (Memᴰ.tail m))
  ]

  -- A sort loses no entry.
  pub mem-sort_by : (xs : List A) {z : A} → Memᴰ z xs → Memᴰ z (sort_by lt xs)
  mem-sort_by [] m = elim m [ ]
  mem-sort_by (x ∷ xs) {z} (Memᴰ.head e) = rw e (mem-insert_by_here x (sort_by lt xs))
  mem-sort_by (x ∷ xs) (Memᴰ.tail m) = mem-insert_by x (sort_by lt xs) (mem-sort_by xs m)

  -- One membership mapped under the first entry, and past the second.
  under_head :
      (x : A) (xs : List A) {z : A} {ys : List A}
      → (Memᴰ z ys → Memᴰ z xs)
      → Memᴰ z (x ∷ ys)
      → Memᴰ z (x ∷ xs)
  under_head x xs f (Memᴰ.head e) = Memᴰ.head e
  under_head x xs f (Memᴰ.tail m) = Memᴰ.tail (f m)

  past_second : (x y : A) (xs : List A) {z : A} → Memᴰ z (x ∷ xs) → Memᴰ z (x ∷ y ∷ xs)
  past_second x y xs (Memᴰ.head e) = Memᴰ.head e
  past_second x y xs (Memᴰ.tail m) = Memᴰ.tail (Memᴰ.tail m)

  after_head :
      (x y : A) (xs : List A) {z : A} {ys : List A}
      → (Memᴰ z ys → Memᴰ z (x ∷ xs))
      → Memᴰ z (y ∷ ys)
      → Memᴰ z (x ∷ y ∷ xs)
  after_head x y xs f (Memᴰ.head e) = Memᴰ.tail (Memᴰ.head e)
  after_head x y xs f (Memᴰ.tail m) = past_second x y xs (f m)

  mem_of_mem-insert_by :
      (x : A) (xs : List A) {z : A} → Memᴰ z (insert_by lt x xs) → Memᴰ z (x ∷ xs)
  mem_of_mem-insert_by x [] m = m
  mem_of_mem-insert_by x (y ∷ ys) m = elim (Bool-cases (lt y x)) [
    | inl e ↦ after_head x y ys (mem_of_mem-insert_by x ys) (rw e at m)
    | inr e ↦ rw e at m
  ]

  pub mem_of_mem-sort_by : (xs : List A) {z : A} → Memᴰ z (sort_by lt xs) → Memᴰ z xs
  mem_of_mem-sort_by [] m = elim m [ ]
  mem_of_mem-sort_by (x ∷ xs) m =
      under_head x xs (mem_of_mem-sort_by xs) (mem_of_mem-insert_by x (sort_by lt xs) m)
