-- ===== src/Prelude/Strings.antt =====
-- Go strings as lists of code points, and what the program uses of package strings on them.
-- Case conversion is that of ASCII: no other letter passes the checks behind it.
use Prim.Native.Nat.{ℕ, ◌+◌}
use Prim.Native.Char.{code}
use Prim.Native.String.{String}
use mathlib.Core.Path.{◌≡◌, refl}
use mathlib.Core.Logic.{◌↔◌}
use mathlib.Core.Bool.{Bool, true, false, ◌&&◌, ◌||◌}
use mathlib.Core.Option.{Option, none, some}
use mathlib.Core.List.{List, [], ◌∷◌, ◌++◌, map, reverse}
use native.Mathlib.Omega.{arith}
use cogitorium.Prelude.Tests.{leb, ltb, ◌==◌, if◌then◌else◌}

abbrev pub Text : Type 0
Text = List ℕ

abbrev pub codes : String → Text
codes String.[] = []
codes (String.◌∷◌ c s) = code c ∷ codes s

-- a == b
unfoldable pub text_eq : Text → Text → Bool
text_eq [] [] = true
text_eq [] (d ∷ t) = false
text_eq (c ∷ s) [] = false
text_eq (c ∷ s) (d ∷ t) = c == d && text_eq s t

pub text_eq→eq : (s t : Text) → text_eq s t ≡ true → s ≡ t
unfolding text_eq
text_eq→eq [] [] h = refl
text_eq→eq [] (d ∷ t) h = cc
text_eq→eq (c ∷ s) [] h = cc
text_eq→eq (c ∷ s) (d ∷ t) h = ground (arith, text_eq→eq s t)

pub text_eq_refl : (s : Text) → text_eq s s ≡ true
unfolding text_eq
text_eq_refl [] = refl
text_eq_refl (c ∷ s) = ground (arith, text_eq_refl s)

pub text_eq_iff : (s t : Text) → (text_eq s t ≡ true) ↔ (s ≡ t)
text_eq_iff s t = (text_eq→eq s t, λ e. rw e (text_eq_refl t))

abbrev pub is_empty : Text → Bool
is_empty [] = true
is_empty (c ∷ s) = false

-- unicode.IsSpace
unfoldable pub is_space : ℕ → Bool
is_space c =
    (leb 9 c && leb c 13)
    || c == 32
    || c == 0x85
    || c == 0xa0
    || c == 0x1680
    || (leb 0x2000 c && leb c 0x200a)
    || c == 0x2028
    || c == 0x2029
    || c == 0x202f
    || c == 0x205f
    || c == 0x3000

unfoldable pub trim_left : Text → Text
unfolding is_space
trim_left [] = []
trim_left (c ∷ s) = let rest = trim_left s in if is_space c then rest else c ∷ s

-- strings.TrimSpace
unfoldable pub trim_space : Text → Text
unfolding trim_left
trim_space s = reverse (trim_left (reverse (trim_left s)))

unfoldable pub to_lower_rune : ℕ → ℕ
to_lower_rune c =
    if leb b'A' c && leb c b'Z'
    then c + 32
    else if c == 0x212a
    then b'k'
    else if c == 0x130
    then b'i'
    else c

-- strings.ToLower, as far as it gives ASCII: the letters A to Z, the Kelvin sign and the dotted I.
-- Every other letter is left as it is, where Go gives one that is no ASCII either.
unfoldable pub to_lower : Text → Text
unfolding to_lower_rune
to_lower = map to_lower_rune

-- strings.CutPrefix and strings.HasPrefix: what follows the prefix, if the text has it
unfoldable pub cut_prefix : Text → Text → Option Text
cut_prefix s [] = some s
cut_prefix [] (p ∷ ps) = none
cut_prefix (c ∷ s) (p ∷ ps) = let rest = cut_prefix s ps in if c == p then rest else none

-- strings.Cut at a one-byte separator: what stands before and after its first occurrence
unfoldable pub cut : Text → ℕ → Option (Text × Text)
cut [] sep = none
cut (c ∷ s) sep =
    let rest = cut s sep in
    if c == sep
    then some ([], s)
    else elim rest [ none ↦ none | some (before, after) ↦ some (c ∷ before, after) ]

abbrev pub push_head : ℕ → List Text → List Text
push_head c [] = (c ∷ []) ∷ []
push_head c (p ∷ ps) = (c ∷ p) ∷ ps

-- strings.Split at a one-byte separator; never the empty list
unfoldable pub split : Text → ℕ → List Text
split [] sep = [] ∷ []
split (c ∷ s) sep = let rest = split s sep in if c == sep then [] ∷ rest else push_head c rest

-- strings.Join
unfoldable pub join : List Text → ℕ → Text
join [] sep = []
join (p ∷ []) sep = p
join (p ∷ q ∷ ps) sep = p ++ (sep ∷ join (q ∷ ps) sep)

join-push_head : (c : ℕ) (ps : List Text) (sep : ℕ) → join (push_head c ps) sep ≡ c ∷ join ps sep
unfolding join
join-push_head c [] sep = refl
join-push_head c (p ∷ []) sep = refl
join-push_head c (p ∷ q ∷ ps) sep = refl

abbrev is_cons : List Text → Bool
is_cons [] = false
is_cons (p ∷ ps) = true

join-nil_cons :
    (ps : List Text) (sep : ℕ) → is_cons ps ≡ true → join ([] ∷ ps) sep ≡ sep ∷ join ps sep
unfolding join
join-nil_cons [] sep h = cc
join-nil_cons (p ∷ ps) sep h = refl

split-is_cons : (s : Text) (sep : ℕ) → is_cons (split s sep) ≡ true
unfolding split
split-is_cons [] sep = refl
split-is_cons (c ∷ s) sep = ground (arith, split-is_cons s sep)

-- Splitting at a separator loses nothing.
pub join-split : (s : Text) (sep : ℕ) → join (split s sep) sep ≡ s
unfolding split
join-split [] sep = unfold join in refl
join-split (c ∷ s) sep = ground (
  arith,
  join-split s sep,
  join-push_head c (split s sep) sep,
  join-nil_cons (split s sep) sep,
  split-is_cons s sep,
)

cut_two : cut (codes "30/10") b'/' ≡ some (codes "30", codes "10")
unfolding cut
cut_two = refl

trimmed : trim_space (codes " a b\t") ≡ codes "a b"
unfolding trim_space
trimmed = refl

split_three : split (codes "1,,2") b',' ≡ codes "1" ∷ [] ∷ codes "2" ∷ []
unfolding split
split_three = refl

prefixed : cut_prefix (to_lower (codes "Every 5m")) (codes "every ") ≡ some (codes "5m")
unfolding cut_prefix to_lower
prefixed = refl

-- a < b on strings; the order of the bytes is that of the code points
unfoldable pub text_ltb : Text → Text → Bool
text_ltb s [] = false
text_ltb [] (d ∷ t) = true
text_ltb (c ∷ s) (d ∷ t) = ltb c d || (c == d && text_ltb s t)

abbrev pub add_word : Text → List Text → List Text
add_word [] ws = ws
add_word (c ∷ w) ws = (c ∷ w) ∷ ws

-- the word that a text begins with, and the words after it
unfoldable pub words : Text → Text × List Text
unfolding is_space
words [] = ([], [])
words (c ∷ s) = let (w, ws) = words s in if is_space c then ([], add_word w ws) else (c ∷ w, ws)

-- strings.Fields
unfoldable pub fields : Text → List Text
unfolding words
fields s = let (w, ws) = words s in add_word w ws

two_fields : fields (codes "  0 7\t*") ≡ codes "0" ∷ codes "7" ∷ codes "*" ∷ []
unfolding fields
two_fields = refl
