-- ===== src/View/Table.antt =====
-- The table of DiffLines holds, in each cell, the length of a longest common subsequence.
use cogitorium.Prelude.{
  ℕ, zero, suc, ◌+◌, ◌≤◌, ◌≡◌, ◌⊎◌, refl, sym, ap, ◌∙◌, true, false, List, [], ◌∷◌, Text, text_eq,
  text_eq→eq, text_eq_refl, length, map, arith, Bool-cases, inl, inr,
}
use cogitorium.View.Diff.{first, later, first_row, cell, row, zeros, table}

-- `zs` is what is left of `xs` when some lines are struck out.
abbrev pub Sub : List Text → List Text → Type 0
Sub [] ys = Unit
Sub (x ∷ xs) [] = ⊥
Sub (x ∷ xs) (y ∷ ys) = ((x ≡ y) × Sub xs ys) ⊎ Sub (x ∷ xs) ys

Sub-tail : (z : Text) (zs ys : List Text) → Sub (z ∷ zs) ys → Sub zs ys
Sub-tail z zs [] h = absurd h
Sub-tail z [] (y ∷ ys) h = tt
Sub-tail z (w ∷ zs) (y ∷ ys) (inl h) = inr h.1
Sub-tail z (w ∷ zs) (y ∷ ys) (inr h) = inr (Sub-tail z (w ∷ zs) ys h)

later-row :
    (x y : Text) (ys : List Text) (below : List ℕ)
    → later (row x (y ∷ ys) below) ≡ row x ys (later below)
unfolding row
later-row x y ys below = refl

first_row-later : (rows : List (List ℕ)) → first_row (map later rows) ≡ later (first_row rows)
first_row-later [] = refl
first_row-later (r ∷ rows) = refl

-- The table without its first column is that of the lines after the first.
pub later-table :
    (xs : List Text) (y : Text) (ys : List Text) → map later (table xs (y ∷ ys)) ≡ table xs ys
unfolding table row zeros
later-table [] y ys = refl
later-table (x ∷ xs) y ys =
    let rest = later-table xs y ys in
    let e : later (first_row (table xs (y ∷ ys))) ≡ first_row (table xs ys) =
      sym (first_row-later (table xs (y ∷ ys))) ∙ ap first_row rest in
    rw (e, rest) refl

-- what the table says of two lists
abbrev pub best : List Text → List Text → ℕ
best xs ys = first (first_row (table xs ys))

pub best-nil : (ys : List Text) → best [] ys ≡ 0
unfolding table zeros
best-nil [] = refl
best-nil (y ∷ ys) = refl

pub best_nil : (xs : List Text) → best xs [] ≡ 0
unfolding table row zeros
best_nil [] = refl
best_nil (x ∷ xs) = refl

pub best-cons :
    (x : Text) (xs : List Text) (y : Text) (ys : List Text)
    → best (x ∷ xs) (y ∷ ys) ≡ cell (text_eq x y) (best xs ys) (best xs (y ∷ ys)) (best (x ∷ xs) ys)
unfolding table row
best-cons x xs y ys =
    let e : later (first_row (table xs (y ∷ ys))) ≡ first_row (table xs ys) =
      sym (first_row-later (table xs (y ∷ ys))) ∙ ap first_row (later-table xs y ys) in
    ap
      (λ r.
        cell (text_eq x y) (first r) (first (first_row (table xs (y ∷ ys)))) (first (row x ys r)))
      e

-- The cell to the right of the first one.
pub best_right :
    (x : Text) (xs : List Text) (y : Text) (ys : List Text)
    → first (later (first_row (table (x ∷ xs) (y ∷ ys)))) ≡ best (x ∷ xs) ys
best_right x xs y ys =
    ap first
      (sym (first_row-later (table (x ∷ xs) (y ∷ ys))) ∙ ap first_row (later-table (x ∷ xs) y ys))

Sub-other :
    (z : Text) (zs : List Text) (y : Text) (ys : List Text)
    → text_eq z y ≡ false
    → Sub (z ∷ zs) (y ∷ ys)
    → Sub (z ∷ zs) ys
Sub-other z zs y ys h (inl k) = let self : text_eq z y ≡ true = rw (k.0) (text_eq_refl y) in cc
Sub-other z zs y ys h (inr k) = k

Sub-skip : (zs : List Text) (y : Text) (ys : List Text) → Sub zs ys → Sub zs (y ∷ ys)
Sub-skip [] y ys h = tt
Sub-skip (z ∷ zs) y ys h = inr h

Sub-drop :
    (z : Text) (zs : List Text) (y : Text) (ys : List Text) → Sub (z ∷ zs) (y ∷ ys) → Sub zs ys
Sub-drop z zs y ys (inl h) = h.1
Sub-drop z zs y ys (inr h) = Sub-tail z zs ys h

-- No common subsequence is longer than the table says.
pub best_bounds :
    (n : ℕ) (xs ys zs : List Text)
    → length xs + length ys ≤ n
    → Sub zs xs
    → Sub zs ys
    → length zs ≤ best xs ys
best_bounds n xs ys [] enough a b = omega arith
best_bounds n [] ys (z ∷ zs) enough a b = absurd a
best_bounds n (x ∷ xs) [] (z ∷ zs) enough a b = absurd b
best_bounds zero (x ∷ xs) (y ∷ ys) (z ∷ zs) enough a b = absurd (omega arith)
best_bounds (suc n) (x ∷ xs) (y ∷ ys) (z ∷ zs) enough a b = elim (Bool-cases (text_eq x y)) [
  | inl e ↦
      let rest =
        best_bounds n xs ys zs (omega arith) (Sub-drop z zs x xs a) (Sub-drop z zs y ys b) in
      ground (arith, rest, best-cons x xs y ys)
  | inr e ↦ elim (Bool-cases (text_eq z x)) [
    | inr k ↦
        let rest = best_bounds n xs (y ∷ ys) (z ∷ zs) (omega arith) (Sub-other z zs x xs k a) b in
        ground (arith, rest, best-cons x xs y ys)
    | inl k ↦
        let apart : text_eq z y ≡ false = rw (text_eq→eq z x k) e in
        let rest =
          best_bounds n (x ∷ xs) ys (z ∷ zs) (omega arith) a (Sub-other z zs y ys apart b) in
        ground (arith, rest, best-cons x xs y ys)
  ]
]
