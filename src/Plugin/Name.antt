-- ===== src/Plugin/Name.antt =====
-- internal/plugin/name.go: template names, <namespace>.<area>.<subject>, and the aliases.
use cogitorium.Prelude.{
  ℕ, ◌+◌, Bool, true, false, not, ◌&&◌, ◌||◌, Option, none, some, List, [], ◌∷◌, ◌==◌, leb,
  if◌then◌else◌, Text, codes, text_eq, is_empty, to_lower, cut_prefix, split, join, find?,
}

pub data Area : Type 0 where
  shell page stage drawer list row field action empty badge frag slot : Area

abbrev pub area_text : Area → Text
area_text shell = codes "shell"
area_text page = codes "page"
area_text stage = codes "stage"
area_text drawer = codes "drawer"
area_text list = codes "list"
area_text row = codes "row"
area_text field = codes "field"
area_text action = codes "action"
area_text empty = codes "empty"
area_text badge = codes "badge"
area_text frag = codes "frag"
area_text slot = codes "slot"

-- Areas
abbrev pub all_areas : List Area
all_areas =
    shell ∷ page ∷ stage ∷ drawer ∷ list ∷ row ∷ field ∷ action ∷ empty ∷ badge ∷ frag ∷ slot ∷ []

-- areas[area]
unfoldable pub area_of : Text → Option Area
area_of t = find? (λ a. text_eq (area_text a) t) all_areas

pub record Name : Type 0 where
  pub namespace : Text
  pub area : Area
  pub subject : Text
  pub full : Text

-- why a name is refused; a segment's error comes with its place
pub data Err : Type 0 where
  required not_lowercase too_few unknown_area : Err
  invalid_segment versioned : ℕ → Err

pub data Result {ℓ} (A : Type ℓ) : Type ℓ where
  ok : A → Result A
  err : Err → Result A

abbrev pub is_alnum : ℕ → Bool
is_alnum c = (leb b'a' c && leb c b'z') || (leb b'0' c && leb c b'9')

abbrev pub segment_rest : ℕ → Text → Bool
segment_rest last [] = is_alnum last
segment_rest last (c ∷ s) = (is_alnum c || c == b'-') && segment_rest c s

-- segmentRe, ^[a-z0-9]([a-z0-9-]*[a-z0-9])?$
unfoldable pub valid_segment : Text → Bool
valid_segment [] = false
valid_segment (c ∷ s) = is_alnum c && segment_rest c s

-- digits, in groups behind a separator; whether a digit was just read
abbrev pub version_from : Bool → Text → Bool
version_from seen [] = seen
version_from seen (c ∷ s) =
    let digit = version_from true s in
    let separator = version_from false s in
    if leb b'0' c && leb c b'9'
    then digit
    else seen && (c == b'.' || c == b'_' || c == b'-') && separator

-- versionish, ^v?[0-9]+([._-][0-9]+)*$
unfoldable pub versionish : Text → Bool
versionish [] = false
versionish (c ∷ s) = if c == b'v' then version_from false s else version_from false (c ∷ s)

-- the loop over the segments, from place `i`
unfoldable pub check_segments : ℕ → List Text → Option Err
unfolding valid_segment versionish
check_segments i [] = none
check_segments i (p ∷ ps) =
    let rest = check_segments (i + 1) ps in
    if not (valid_segment p)
    then some (invalid_segment i)
    else if leb 2 i && versionish p
    then some (versioned i)
    else rest

abbrev pub named : Text → Text → List Text → Option Area → Result Name
named s namespace subject none = err unknown_area
named s namespace subject (some a) =
    ok (record { namespace = namespace; area = a; subject = join subject b'.'; full = s })

abbrev pub checked : Text → Text → Text → List Text → Option Err → Result Name
checked s namespace area subject (some e) = err e
checked s namespace area subject none = named s namespace subject (area_of area)

-- ParseName, of the segments
abbrev pub parse_parts : Text → List Text → Result Name
parse_parts s (p ∷ q ∷ r ∷ rest) = checked s p q (r ∷ rest) (check_segments 0 (p ∷ q ∷ r ∷ rest))
parse_parts s _ = err too_few

-- ParseName
unfoldable pub parse_name : Text → Result Name
parse_name s =
    if is_empty s
    then err required
    else if not (text_eq s (to_lower s))
    then err not_lowercase
    else parse_parts s (split s b'.')

abbrev pub core_namespace : Text
core_namespace = codes "cog"

unfoldable pub is_core : Name → Bool
is_core n = text_eq n.namespace core_namespace

unfoldable pub owned_by : Name → Text → Bool
owned_by n id = text_eq n.namespace id

unfoldable pub has_suffix : Text → Text → Bool
has_suffix [] suffix = is_empty suffix
has_suffix (c ∷ s) suffix = text_eq (c ∷ s) suffix || has_suffix s suffix

abbrev is_slot : Area → Bool
is_slot slot = true
is_slot _ = false

unfoldable pub appends : Name → Bool
unfolding has_suffix
appends n = is_slot n.area || has_suffix n.full (codes ".extra")

-- the aliases; `direct` is a reference with no prefix
pub data Alias : Type 0 where
  under core direct : Alias

abbrev pub alias_text : Alias → Text
alias_text under = codes "under:"
alias_text core = codes "core:"
alias_text direct = []

abbrev pub core_or_direct : Text → Option Text → Alias × Text
core_or_direct ref none = (direct, ref)
core_or_direct ref (some name) = (core, name)

abbrev pub under_or_other : Text → Option Text → Alias × Text
under_or_other ref (some name) = (under, name)
under_or_other ref none = core_or_direct ref (cut_prefix ref (codes "core:"))

-- SplitAlias
unfoldable pub split_alias : Text → Alias × Text
split_alias ref = under_or_other ref (cut_prefix ref (codes "under:"))
