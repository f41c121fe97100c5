-- ===== src/View/Diff.antt =====
-- internal/view/linediff.go: DiffLines. Texts are lists of code points. The table `lcs` is a list of
-- rows; where the walk stands at i and j, `rows` is the table from row i and column j on.
use cogitorium.Prelude.{
  ℕ, zero, suc, ◌+◌, Bool, Option, none, some, List, [], ◌∷◌, ◌==◌, leb, ltb, if◌then◌else◌, Text,
  text_eq, length, map,
}

pub data Kind : Type 0 where
  same added removed : Kind

-- `DiffLine`
pub record DiffLine : Type 0 where
  pub kind : Kind
  pub text : Text

abbrev pub max_diff_lines : ℕ
max_diff_lines = 4000

-- a character in front of the first line
abbrev pub to_first : ℕ → List Text → List Text
to_first c [] = (c ∷ []) ∷ []
to_first c (line ∷ rest) = (c ∷ line) ∷ rest

-- splitLines: a newline ends its line, and begins none at the end
unfoldable pub split_lines : Text → List Text
split_lines [] = []
split_lines (c ∷ s) = let rest = split_lines s in if c == b'\n' then [] ∷ rest else to_first c rest

-- the first entry of a row, and the first of a table
abbrev pub first : List ℕ → ℕ
first [] = 0
first (n ∷ row) = n

abbrev pub later : List ℕ → List ℕ
later [] = []
later (n ∷ row) = row

abbrev pub first_row : List (List ℕ) → List ℕ
first_row [] = []
first_row (row ∷ rows) = row

abbrev pub later_rows : List (List ℕ) → List (List ℕ)
later_rows [] = []
later_rows (row ∷ rows) = rows

-- lcs[i][j], from a[i] == b[j], lcs[i+1][j+1], lcs[i+1][j] and lcs[i][j+1]
abbrev pub cell : Bool → ℕ → ℕ → ℕ → ℕ
cell equal diagonal below right =
    if equal then diagonal + 1 else (if leb right below then below else right)

-- lcs[i], from the right; `below` is lcs[i+1]
unfoldable pub row : Text → List Text → List ℕ → List ℕ
row x [] below = 0 ∷ []
row x (y ∷ ys) below =
    let rest = row x ys (later below) in
    cell (text_eq x y) (first (later below)) (first below) (first rest) ∷ rest

unfoldable pub zeros : List Text → List ℕ
zeros [] = 0 ∷ []
zeros (y ∷ ys) = 0 ∷ zeros ys

-- lcs, from the last row
unfoldable pub table : List Text → List Text → List (List ℕ)
unfolding row zeros
table [] ys = zeros ys ∷ []
table (x ∷ xs) ys = let rest = table xs ys in row x ys (first_row rest) ∷ rest

abbrev pub line : Kind → Text → DiffLine
line kind text = record { kind = kind; text = text }

-- the loops of the walk; a round for each line is enough fuel
unfoldable pub walk : ℕ → List Text → List Text → List (List ℕ) → List DiffLine
walk zero xs ys rows = []
walk (suc fuel) [] ys rows = map (line added) ys
walk (suc fuel) (x ∷ xs) [] rows = map (line removed) (x ∷ xs)
walk (suc fuel) (x ∷ xs) (y ∷ ys) rows =
    let kept = walk fuel xs ys (map later (later_rows rows)) in
    let dropped = walk fuel xs (y ∷ ys) (later_rows rows) in
    let gained = walk fuel (x ∷ xs) ys (map later rows) in
    if text_eq x y
    then line same x ∷ kept
    else if leb (first (later (first_row rows))) (first (first_row (later_rows rows)))
    then line removed x ∷ dropped
    else line added y ∷ gained

-- DiffLines
unfoldable pub diff_lines : Text → Text → Option (List DiffLine)
unfolding split_lines table walk
diff_lines before after =
    let xs = split_lines before in
    let ys = split_lines after in
    if ltb max_diff_lines (length xs + length ys)
    then none
    else some (walk (length xs + length ys + 1) xs ys (table xs ys))
