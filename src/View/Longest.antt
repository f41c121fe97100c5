-- ===== src/View/Longest.antt =====
-- What DiffLines promises: its lines read as both files, and as few as can be are struck out.
use cogitorium.Prelude.{
  ℕ, zero, suc, ◌+◌, ◌≤◌, ◌<◌, ◌≡◌, refl, sym, ap, ◌∙◌, Bool, true, false, none, some, List, [],
  ◌∷◌, leb, ltb, Text, text_eq, text_eq→eq, length, map, arith, Bool-cases, ◌⊎◌, inl, inr, count,
}
use cogitorium.View.Diff.{
  Kind, same, added, removed, DiffLine, line, max_diff_lines, split_lines, first, later, first_row,
  later_rows, table, walk, diff_lines,
}
use cogitorium.View.Table.{
  Sub, best, best-nil, best_nil, best-cons, best_right, best_bounds, later-table,
}

abbrev is_same : Kind → Bool
is_same same = true
is_same _ = false

-- the lines of the version before
abbrev pub old_lines : List DiffLine → List Text
old_lines [] = []
old_lines (d ∷ ds) =
    let rest = old_lines ds in
    elim d.kind [ same ↦ d.text ∷ rest | removed ↦ d.text ∷ rest | added ↦ rest ]

-- the lines of the version after
abbrev pub new_lines : List DiffLine → List Text
new_lines [] = []
new_lines (d ∷ ds) =
    let rest = new_lines ds in
    elim d.kind [ same ↦ d.text ∷ rest | added ↦ d.text ∷ rest | removed ↦ rest ]

-- how many lines are the same in both
abbrev pub same_count : List DiffLine → ℕ
same_count ds = count (λ d. is_same d.kind) ds

-- What a comparison of `xs` and `ys` must give.
abbrev pub Compares : List Text → List Text → List DiffLine → Type 0
Compares xs ys ds = (old_lines ds ≡ xs) × (new_lines ds ≡ ys) × (same_count ds ≡ best xs ys)

added-Compares : (ys : List Text) → Compares [] ys (map (line added) ys)
added-Compares [] = (refl, refl, sym (best-nil []))
added-Compares (y ∷ ys) =
    let (a, b, c) = added-Compares ys in
    (a, ap (λ ls. y ∷ ls) b, omega (arith, c, best-nil ys, best-nil (y ∷ ys)))

removed-Compares : (xs : List Text) → Compares xs [] (map (line removed) xs)
removed-Compares [] = (refl, refl, sym (best_nil []))
removed-Compares (x ∷ xs) =
    let (a, b, c) = removed-Compares xs in
    (ap (λ ls. x ∷ ls) a, b, omega (arith, c, best_nil xs, best_nil (x ∷ xs)))

module _ (fuel : ℕ) (x : Text) (xs : List Text) (y : Text) (ys : List Text) where
  abbrev here : List DiffLine
  here = walk (suc fuel) (x ∷ xs) (y ∷ ys) (table (x ∷ xs) (y ∷ ys))

  later_rows-table : later_rows (table (x ∷ xs) (y ∷ ys)) ≡ table xs (y ∷ ys)
  unfolding table
  later_rows-table = refl

  walk_same : text_eq x y ≡ true → here ≡ line same x ∷ walk fuel xs ys (table xs ys)
  unfolding walk
  walk_same e = rw e (
      ap (λ r. line same x ∷ walk fuel xs ys r)
        (ap (map later) later_rows-table ∙ later-table xs y ys))

  walk_removed :
      text_eq x y ≡ false
      → best (x ∷ xs) ys ≤ best xs (y ∷ ys)
      → here ≡ line removed x ∷ walk fuel xs (y ∷ ys) (table xs (y ∷ ys))
  unfolding walk
  walk_removed e k =
      let down : first (first_row (later_rows (table (x ∷ xs) (y ∷ ys)))) ≡ best xs (y ∷ ys) =
        ap (λ r. first (first_row r)) later_rows-table in
      let right = best_right x xs y ys in
      let go : leb (first (later (first_row (table (x ∷ xs) (y ∷ ys)))))
            (first (first_row (later_rows (table (x ∷ xs) (y ∷ ys)))))
          ≡ true =
        ground (arith, down, right) in
      rw (e, go) (ap (λ r. line removed x ∷ walk fuel xs (y ∷ ys) r) later_rows-table)

  walk_added :
      text_eq x y ≡ false
      → best xs (y ∷ ys) < best (x ∷ xs) ys
      → here ≡ line added y ∷ walk fuel (x ∷ xs) ys (table (x ∷ xs) ys)
  unfolding walk
  walk_added e k =
      let down : first (first_row (later_rows (table (x ∷ xs) (y ∷ ys)))) ≡ best xs (y ∷ ys) =
        ap (λ r. first (first_row r)) later_rows-table in
      let right = best_right x xs y ys in
      let go : leb (first (later (first_row (table (x ∷ xs) (y ∷ ys)))))
            (first (first_row (later_rows (table (x ∷ xs) (y ∷ ys)))))
          ≡ false =
        ground (arith, down, right) in
      rw (e, go) (ap (λ r. line added y ∷ walk fuel (x ∷ xs) ys r) (later-table (x ∷ xs) y ys))

walk-Compares :
    (fuel : ℕ) (xs ys : List Text)
    → length xs + length ys < fuel
    → Compares xs ys (walk fuel xs ys (table xs ys))
unfolding walk
walk-Compares zero xs ys h = absurd (omega arith)
walk-Compares (suc fuel) [] ys h = added-Compares ys
walk-Compares (suc fuel) (x ∷ xs) [] h = removed-Compares (x ∷ xs)
walk-Compares (suc fuel) (x ∷ xs) (y ∷ ys) h =
    let step = best-cons x xs y ys in
    elim (Bool-cases (text_eq x y)) [
      | inl e ↦
          let (a, b, c) = walk-Compares fuel xs ys (omega arith) in
          rw (walk_same fuel x xs y ys e) (
            ap (λ ls. x ∷ ls) a,
            ap (λ ls. x ∷ ls) b ∙ ap (λ l. l ∷ ys) (text_eq→eq x y e),
            ground (arith, c, step),
          )
      | inr e ↦ elim (Bool-cases (leb (best (x ∷ xs) ys) (best xs (y ∷ ys)))) [
        | inl k ↦
            let (a, b, c) = walk-Compares fuel xs (y ∷ ys) (omega arith) in
            rw (walk_removed fuel x xs y ys e (ground arith))
              (ap (λ ls. x ∷ ls) a, b, ground (arith, c, step))
        | inr k ↦
            let (a, b, c) = walk-Compares fuel (x ∷ xs) ys (omega arith) in
            rw (walk_added fuel x xs y ys e (ground arith))
              (a, ap (λ ls. y ∷ ls) b, ground (arith, c, step))
      ]
    ]

-- A comparison reads, without its added lines, as the version before, and without its removed
-- lines, as the version after; and no list of lines that is left of both versions when others are
-- struck out is longer than the lines it shows as the same. It is given where the versions have at
-- most 4000 lines together, and refused where they have more.
pub diff_lines_reads :
    (before after : Text)
    → ((length (split_lines before) + length (split_lines after) ≤ 4000)
        × (ds : List DiffLine) × (diff_lines before after ≡ some ds)
        × (old_lines ds ≡ split_lines before)
        × (new_lines ds ≡ split_lines after)
        × ((zs : List Text)
            → Sub zs (split_lines before)
            → Sub zs (split_lines after)
            → length zs ≤ same_count ds))
      ⊎ ((4000 < length (split_lines before) + length (split_lines after))
          × (diff_lines before after ≡ none))
unfolding diff_lines
diff_lines_reads before after =
    let xs = split_lines before in
    let ys = split_lines after in
    elim (Bool-cases (ltb max_diff_lines (length xs + length ys))) [
      | inl e ↦ inr (ground arith, rw e)
      | inr e ↦
          let (a, b, c) = walk-Compares (length xs + length ys + 1) xs ys (omega arith) in
          inl (
            ground (arith, e),
            walk (length xs + length ys + 1) xs ys (table xs ys),
            rw e,
            a,
            b,
            (λ zs p q.
                let bound = best_bounds (length xs + length ys) xs ys zs (omega arith) p q in
                omega (arith, bound, c)),
          )
    ]
