-- ===== src/Inlet/Validate.antt =====
-- validate in internal/inlet/schema.go. `Floats` is what the code asks of json.Number.Float64 and
-- of a conversion to int: whether the number fits a float64, the order of two of them, and the
-- whole part.
use cogitorium.Prelude.{
  ℕ, zero, suc, Bool, true, false, not, Option, none, some, List, [], ◌∷◌, ltb, if◌then◌else◌, Text,
  codes, text_eq, length, ℤ, pos, negsuc, atoi,
}
use cogitorium.Inlet.Keyword
use cogitorium.Inlet.Json.{
  Value, null, boolean, number, string, array, object, Items, nil, cons, Fields, end, field, get,
  item_count, sorted_names, depth, canonical, value_eq,
}
use cogitorium.Inlet.Schema.{
  Complaint, wrong_type, not_allowed, too_short, too_long, not_comparable, too_small, too_big,
  missing, undeclared, too_few, too_many, out_of_fuel, Check, ok, refused, ◌>>◌, require,
}

pub record Floats : Type 0 where
  pub is_float : Text → Bool
  pub less : Text → Text → Bool
  pub whole : Text → ℤ

abbrev pub is_some {ℓ} : {A : Type ℓ} → Option A → Bool
is_some none = false
is_some (some a) = true

unfoldable pub int_ltb : ℤ → ℤ → Bool
int_ltb (pos a) (pos b) = ltb a b
int_ltb (pos a) (negsuc b) = false
int_ltb (negsuc a) (pos b) = true
int_ltb (negsuc a) (negsuc b) = ltb b a

-- matchesType: the kind of value that a type's name stands for
unfoldable pub is_object : Value → Bool
is_object (object fs) = true
is_object _ = false

unfoldable pub is_array : Value → Bool
is_array (array xs) = true
is_array _ = false

unfoldable pub is_string : Value → Bool
is_string (string s) = true
is_string _ = false

unfoldable pub is_boolean : Value → Bool
is_boolean (boolean b) = true
is_boolean _ = false

unfoldable pub is_null : Value → Bool
is_null null = true
is_null _ = false

unfoldable pub is_number : Value → Bool
is_number (number n) = true
is_number _ = false

-- n.Int64(), which is strconv.ParseInt
unfoldable pub is_integer : Value → Bool
unfolding atoi
is_integer (number n) = is_some (atoi n)
is_integer _ = false

unfoldable pub matches_type : Text → Value → Bool
unfolding text_eq is_object is_array is_string is_boolean is_null is_number is_integer
matches_type t v =
    if text_eq t (codes "object")
    then is_object v
    else if text_eq t (codes "array")
    then is_array v
    else if text_eq t (codes "string")
    then is_string v
    else if text_eq t (codes "boolean")
    then is_boolean v
    else if text_eq t (codes "null")
    then is_null v
    else if text_eq t (codes "number")
    then is_number v
    else if text_eq t (codes "integer")
    then is_integer v
    else false

unfoldable pub in_enum : Items → Value → Bool
unfolding canonical value_eq
in_enum nil v = false
in_enum (cons x xs) v =
    let rest = in_enum xs v in if value_eq (canonical x) (canonical v) then true else rest

abbrev pub items_of : Value → Items
items_of (array xs) = xs
items_of _ = nil

-- a type assertion to map[string]any, whose zero value is the empty map
abbrev pub fields_of : Option Value → Fields
fields_of (some (object fs)) = fs
fields_of _ = end

unfoldable pub of_type : Option Value → Value → Check
unfolding matches_type
of_type (some (string t)) v = require (matches_type t v) wrong_type
of_type _ v = ok

unfoldable pub of_enum : Option Value → Value → Check
unfolding in_enum
of_enum none v = ok
of_enum (some raw) v = require (in_enum (items_of raw) v) not_allowed

-- a type assertion to string, whose zero value is the empty text
abbrev pub name_in : Value → Text
name_in (string s) = s
name_in _ = []

unfoldable pub check_present : Items → Fields → Check
unfolding get
check_present nil typed = ok
check_present (cons item xs) typed =
    require (is_some (get (name_in item) typed)) missing >> check_present xs typed

unfoldable pub has_required : Option Value → Fields → Check
unfolding check_present
has_required none typed = ok
has_required (some raw) typed = check_present (items_of raw) typed

unfoldable pub check_declared : Fields → Fields → Check
unfolding get
check_declared props end = ok
check_declared props (field name v rest) =
    require (is_some (get name props)) undeclared >> check_declared props rest

unfoldable pub only_declared : Option Value → Fields → Fields → Check
unfolding check_declared
only_declared (some (boolean false)) props typed = check_declared props typed
only_declared _ props typed = ok

abbrev pub check_child : (Fields → Value → Check) → Option Value → Option Value → Check
check_child check sub none = ok
check_child check sub (some child) = check (fields_of sub) child

-- the loop over the schema's names; `check` is validate
unfoldable pub check_children : (Fields → Value → Check) → Fields → Fields → List Text → Check
unfolding get
check_children check props typed [] = ok
check_children check props typed (name ∷ names) =
    check_child check (get name props) (get name typed) >> check_children check props typed names

unfoldable pub check_all : (Value → Check) → Items → Check
check_all check nil = ok
check_all check (cons x xs) = check x >> check_all check xs

unfoldable pub each_item : (Fields → Value → Check) → Option Value → Items → Check
unfolding check_all
each_item check (some (object sub)) xs = check_all (check sub) xs
each_item check _ xs = ok

module _ (F : Floats) where
  -- numberOf
  unfoldable pub number_in : Option Value → Option Text
  number_in (some (number n)) = if F.is_float n then some n else none
  number_in _ = none

  unfoldable pub at_least : Option Text → ℕ → Complaint → Check
  unfolding int_ltb
  at_least none n c = ok
  at_least (some bound) n c = require (not (int_ltb (pos n) (F.whole bound))) c

  unfoldable pub at_most : Option Text → ℕ → Complaint → Check
  unfolding int_ltb
  at_most none n c = ok
  at_most (some bound) n c = require (not (int_ltb (F.whole bound) (pos n))) c

  unfoldable pub not_below : Option Text → Text → Check
  not_below none n = ok
  not_below (some bound) n = require (not (F.less n bound)) too_small

  unfoldable pub not_above : Option Text → Text → Check
  not_above none n = ok
  not_above (some bound) n = require (not (F.less bound n)) too_big

  unfoldable pub check_length : Fields → Text → Check
  unfolding number_in at_least at_most get
  check_length schema s =
      at_least (number_in (get Keyword.min_length schema)) (length s) too_short
      >> at_most (number_in (get Keyword.max_length schema)) (length s) too_long

  unfoldable pub check_number : Fields → Text → Check
  unfolding number_in not_below not_above get
  check_number schema n =
      require (F.is_float n) not_comparable
      >> not_below (number_in (get Keyword.minimum schema)) n
      >> not_above (number_in (get Keyword.maximum schema)) n

  unfoldable pub check_object : (Fields → Value → Check) → Fields → Fields → Check
  unfolding has_required only_declared check_children sorted_names get
  check_object check schema typed =
      let props = fields_of (get Keyword.properties schema) in
      has_required (get Keyword.required schema) typed
      >> only_declared (get Keyword.additional schema) props typed
      >> check_children check props typed (sorted_names props)

  unfoldable pub check_array : (Fields → Value → Check) → Fields → Items → Check
  unfolding number_in at_least at_most each_item item_count get
  check_array check schema xs =
      at_least (number_in (get Keyword.min_items schema)) (item_count xs) too_few
      >> at_most (number_in (get Keyword.max_items schema)) (item_count xs) too_many
      >> each_item check (get Keyword.items schema) xs

  -- the switch on the kind of the value
  unfoldable pub check_kind : (Fields → Value → Check) → Fields → Value → Check
  unfolding check_length check_number check_object check_array
  check_kind check schema (string s) = check_length schema s
  check_kind check schema (number n) = check_number schema n
  check_kind check schema (object typed) = check_object check schema typed
  check_kind check schema (array xs) = check_array check schema xs
  check_kind check schema _ = ok

  unfoldable pub check_value : (Fields → Value → Check) → Fields → Value → Check
  unfolding of_type of_enum check_kind get
  check_value check schema v =
      of_type (get Keyword.type schema) v
      >> of_enum (get Keyword.enum schema) v
      >> check_kind check schema v

  unfoldable pub validate_within : ℕ → Fields → Value → Check
  unfolding check_value
  validate_within zero schema v = refused out_of_fuel
  validate_within (suc fuel) schema v = check_value (validate_within fuel) schema v

  -- validate, with a round for each level of the value
  unfoldable pub validate : Fields → Value → Check
  unfolding validate_within depth
  validate schema v = validate_within (suc (depth v)) schema v
