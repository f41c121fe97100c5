-- ===== src/View/Examples.antt =====
-- A gear of three lines that lost one and gained one.
use cogitorium.Prelude.{
  ◌+◌, ◌≡◌, ◌≤◌, ◌<◌, ◌⊎◌, refl, none, some, List, [], ◌∷◌, ◌++◌, Text, codes, length,
}
use cogitorium.View.Diff.{DiffLine, split_lines, diff_lines}
use cogitorium.View.Table.{Sub}
use cogitorium.View.Longest.{old_lines, new_lines, same_count, diff_lines_reads}
use cogitorium.View.Lines.{terminated, split_lines-terminated}

abbrev version_1 : Text
version_1 = codes "a" ++ b'\n' ∷ codes "b" ++ b'\n' ∷ codes "c"

abbrev version_2 : Text
version_2 = codes "a" ++ b'\n' ∷ codes "c" ++ b'\n' ∷ codes "d" ++ b'\n' ∷ []

diff_lines_reads_example :
    ((length (split_lines version_1) + length (split_lines version_2) ≤ 4000)
      × (ds : List DiffLine) × (diff_lines version_1 version_2 ≡ some ds)
      × (old_lines ds ≡ split_lines version_1)
      × (new_lines ds ≡ split_lines version_2)
      × ((zs : List Text)
          → Sub zs (split_lines version_1)
          → Sub zs (split_lines version_2)
          → length zs ≤ same_count ds))
    ⊎ ((4000 < length (split_lines version_1) + length (split_lines version_2))
        × (diff_lines version_1 version_2 ≡ none))
diff_lines_reads_example = diff_lines_reads version_1 version_2

split_lines-terminated_example :
    (split_lines (terminated (codes "a" ∷ [])) ≡ codes "a" ∷ [])
    × (split_lines (terminated (codes "a" ∷ codes "b" ∷ [])) ≡ codes "a" ∷ codes "b" ∷ [])
    × (split_lines (terminated (codes "a" ∷ []) ++ codes "b") ≡ codes "a" ∷ codes "b" ∷ [])
split_lines-terminated_example = split_lines-terminated (codes "a" ∷ []) b'b' [] (refl, tt) refl
