-- ===== src/Plugin/Versioned.antt =====
-- Tests of the versions, and their theorems at concrete inputs.
use cogitorium.Prelude.{ℕ, ◌≡◌, refl, true, false, some, [], codes, text_eq, trim_space, cut_prefix}
use cogitorium.Plugin.Version.{
  Version, Constraint, compare, below, at_least, under, parse_version, parse_constraint, satisfied,
}
use cogitorium.Plugin.Interval.{satisfied-between}

abbrev plain : ℕ → Version
plain n = record { major = 1; minor = n; patch = 0; pre = [] }

abbrev beta : Version
beta = record { major = 1; minor = 4; patch = 0; pre = codes "beta.1" }

read_beta : parse_version (codes "v1.4.0-beta.1+7") ≡ some beta
unfolding parse_version trim_space cut_prefix
read_beta = refl

-- A hyphen in the build metadata makes a release a prerelease.
build_read :
    parse_version (codes "1.4.0+build-5")
    ≡ some (record { major = 1; minor = 4; patch = 0; pre = codes "5" })
unfolding parse_version trim_space cut_prefix
build_read = refl

two_parts : parse_constraint (codes ">=1.9") ≡ some (record { op = at_least; bound = plain 9 })
unfolding parse_constraint trim_space cut_prefix
two_parts = refl

beta_too_early : satisfied (record { op = at_least; bound = plain 4 }) beta ≡ false
unfolding satisfied text_eq
beta_too_early = refl

beta_first : compare beta (plain 4) ≡ below
unfolding compare text_eq
beta_first = refl

four_first : compare (plain 4) (plain 5) ≡ below
unfolding compare text_eq
four_first = refl

abbrev under_nine : Constraint
under_nine = record { op = under; bound = plain 9 }

beta_taken : satisfied under_nine beta ≡ true
unfolding satisfied text_eq
beta_taken = refl

five_taken : satisfied under_nine (plain 5) ≡ true
unfolding satisfied text_eq
five_taken = refl

satisfied-between_example : satisfied under_nine (plain 4) ≡ true
satisfied-between_example =
    satisfied-between under_nine beta (plain 4) (plain 5) beta_first four_first beta_taken
      five_taken
