-- ===== src/Plugin/Version.antt =====
-- Versions and constraints in internal/plugin/manifest.go.
use cogitorium.Prelude.{
  ℕ, Bool, true, false, not, ◌&&◌, Option, none, some, List, [], ◌∷◌, ◌++◌, ◌==◌, ltb, length,
  if◌then◌else◌, Text, codes, text_eq, text_ltb, is_empty, trim_space, cut_prefix, cut, split, pos,
  negsuc, atoi,
}

pub record Version : Type 0 where
  pub major : ℕ
  pub minor : ℕ
  pub patch : ℕ
  pub pre : Text

-- strings.TrimPrefix
abbrev trim_prefix : Text → Text → Text
trim_prefix s p = elim (cut_prefix s p) [ none ↦ s | some rest ↦ rest ]

-- the two texts of strings.Cut
abbrev before_cut : Text → ℕ → Text
before_cut s sep = elim (cut s sep) [ none ↦ s | some p ↦ p.0 ]

abbrev after_cut : Text → ℕ → Text
after_cut s sep = elim (cut s sep) [ none ↦ [] | some p ↦ p.1 ]

abbrev has_leading_zero : Text → Bool
has_leading_zero [] = false
has_leading_zero (c ∷ s) = c == b'0' && not (is_empty s)

-- a part of the core: no sign, and no zero before another digit
unfoldable number_part : Text → Option ℕ
unfolding atoi
number_part p = elim (atoi p) [
  | none ↦ none
  | some i ↦ elim i [ negsuc n ↦ none | pos n ↦ if has_leading_zero p then none else some n ]
]

abbrev three_parts : Option ℕ → Option ℕ → Option ℕ → Text → Option Version
three_parts (some a) (some b) (some c) p = some record { major = a; minor = b; patch = c; pre = p }
three_parts (some a) (some b) none p = none
three_parts (some a) none c p = none
three_parts none b c p = none

abbrev version_of : List Text → Text → Option Version
version_of [] p = none
version_of (a ∷ []) p = none
version_of (a ∷ b ∷ []) p = none
version_of (a ∷ b ∷ c ∷ []) p = three_parts (number_part a) (number_part b) (number_part c) p
version_of (a ∷ b ∷ c ∷ d ∷ rest) p = none

-- parseVersion: build metadata is dropped
unfoldable pub parse_version : Text → Option Version
unfolding number_part cut split
parse_version text =
    let s = trim_space (trim_prefix (trim_space text) (codes "v")) in
    if is_empty s
    then none
    else version_of (split (before_cut (before_cut s b'-') b'+') b'.')
        (before_cut (after_cut s b'-') b'+')

-- an int that is compared with 0
pub data Ordering : Type 0 where
  below same above : Ordering

-- sign of a difference
abbrev pub sign_diff : ℕ → ℕ → Ordering
sign_diff a b = if ltb a b then below else if ltb b a then above else same

-- strings.Compare
unfoldable pub compare_text : Text → Text → Ordering
unfolding text_ltb
compare_text s t = if text_ltb s t then below else if text_ltb t s then above else same

-- Version.Compare
unfoldable pub compare : Version → Version → Ordering
unfolding compare_text
compare v o =
    if not (v.major == o.major)
    then sign_diff v.major o.major
    else if not (v.minor == o.minor)
    then sign_diff v.minor o.minor
    else if not (v.patch == o.patch)
    then sign_diff v.patch o.patch
    else if text_eq v.pre o.pre
    then same
    else if is_empty v.pre
    then above
    else if is_empty o.pre
    then below
    else compare_text v.pre o.pre

-- Constraint.Op, where `no_op` is ""
pub data Op : Type 0 where
  no_op at_least over equal under at_most : Op

pub record Constraint : Type 0 where
  pub op : Op
  pub bound : Version

-- the switch of Satisfied on the comparison
abbrev pub meets : Op → Ordering → Bool
meets no_op o = true
meets at_least o = elim o [ below ↦ false | same ↦ true | above ↦ true ]
meets over o = elim o [ below ↦ false | same ↦ false | above ↦ true ]
meets equal o = elim o [ below ↦ false | same ↦ true | above ↦ false ]
meets under o = elim o [ below ↦ true | same ↦ false | above ↦ false ]
meets at_most o = elim o [ below ↦ true | same ↦ true | above ↦ false ]

-- Constraint.Satisfied
unfoldable pub satisfied : Constraint → Version → Bool
unfolding compare
satisfied c v = meets c.op (compare v c.bound)

-- the operator that the text begins with, the first of the list, and the text after it
abbrev pub operators : List (Text × Op)
operators =
    (codes ">=", at_least)
    ∷ (codes "<=", at_most)
    ∷ (codes ">", over)
    ∷ (codes "<", under)
    ∷ (codes "=", equal)
    ∷ []

abbrev pub operator_of : List (Text × Op) → Text → Op × Text
operator_of [] s = (equal, s)
operator_of (c ∷ cs) s = elim (cut_prefix s c.0) [
  | none ↦ operator_of cs s
  | some rest ↦ (c.1, trim_space rest)
]

-- a version of two parts is given a patch
abbrev pub completed : Text → Text
completed s = if length (split (trim_prefix s (codes "v")) b'.') == 2 then s ++ codes ".0" else s

abbrev constraint_on : Op → Option Version → Option Constraint
constraint_on o none = none
constraint_on o (some v) = some record { op = o; bound = v }

-- Constraint{}
abbrev pub no_constraint : Constraint
no_constraint = record { op = no_op; bound = record { major = 0; minor = 0; patch = 0; pre = [] } }

-- ParseConstraint
unfoldable pub parse_constraint : Text → Option Constraint
unfolding parse_version
parse_constraint text =
    let s = trim_space text in
    let (o, rest) = operator_of operators s in
    if is_empty s then some no_constraint else constraint_on o (parse_version (completed rest))
