-- ===== src/View/Lines.antt =====
-- The lines of a file: a newline at its end makes no difference.
use cogitorium.Prelude.{
  ℕ, ◌≡◌, refl, ap, ◌∙◌, Bool, true, not, List, [], ◌∷◌, ◌++◌, ◌==◌, Text, all, All, All-append,
  arith,
}
use cogitorium.View.Diff.{split_lines}

-- no newline within
abbrev pub one_line : Text → Bool
one_line s = all (λ c. not (c == b'\n')) s

-- each line with a newline behind it
abbrev pub terminated : List Text → Text
terminated [] = []
terminated (l ∷ ls) = l ++ b'\n' ∷ terminated ls

split-first :
    (l rest : Text) → one_line l ≡ true → split_lines (l ++ b'\n' ∷ rest) ≡ l ∷ split_lines rest
unfolding split_lines
split-first [] rest h = refl
split-first (c ∷ l) rest h = ground (arith, split-first l rest (ground arith))

split-last : (c : ℕ) (l : Text) → one_line (c ∷ l) ≡ true → split_lines (c ∷ l) ≡ (c ∷ l) ∷ []
unfolding split_lines
split-last c [] h = ground arith
split-last c (d ∷ l) h = ground (arith, split-last d l (ground arith))

split-terminated :
    (ls : List Text) (rest : Text)
    → All (λ l. one_line l ≡ true) ls
    → split_lines (terminated ls ++ rest) ≡ ls ++ split_lines rest
split-terminated [] rest h = refl
split-terminated (l ∷ ls) rest h =
    let more = split-terminated ls rest h.1 in
    ap split_lines (append_line l (terminated ls) rest)
    ∙ split-first l (terminated ls ++ rest) h.0
    ∙ ap (λ xs. l ∷ xs) more
  where
    append_line : (a b c : Text) → (a ++ b'\n' ∷ b) ++ c ≡ a ++ b'\n' ∷ (b ++ c)
    append_line [] b c = refl
    append_line (x ∷ a) b c = ap (λ s. x ∷ s) (append_line a b c)

split_lines-each_terminated :
    (ls : List Text) → All (λ l. one_line l ≡ true) ls → split_lines (terminated ls) ≡ ls
unfolding split_lines
split_lines-each_terminated [] h = refl
split_lines-each_terminated (l ∷ ls) h =
    split-first l (terminated ls) h.0 ∙ ap (λ xs. l ∷ xs) (split_lines-each_terminated ls h.1)

-- The lines of a file whose every line ends in a newline are those lines, and so they are when the
-- last one, if it is not empty, lacks its newline. For lines without a newline within.
pub split_lines-terminated :
    (ls : List Text) (c : ℕ) (l : Text)
    → All (λ l. one_line l ≡ true) ls
    → one_line (c ∷ l) ≡ true
    → (split_lines (terminated ls) ≡ ls)
      × (split_lines (terminated (ls ++ (c ∷ l) ∷ [])) ≡ ls ++ (c ∷ l) ∷ [])
      × (split_lines (terminated ls ++ c ∷ l) ≡ ls ++ (c ∷ l) ∷ [])
unfolding split_lines
split_lines-terminated ls c l h k = (
  split_lines-each_terminated ls h,
  split_lines-each_terminated (ls ++ (c ∷ l) ∷ [])
      (All-append (λ l. one_line l ≡ true) ls ((c ∷ l) ∷ []) h (k, tt)),
  split-terminated ls (c ∷ l) h ∙ ap (λ xs. ls ++ xs) (split-last c l k),
)
