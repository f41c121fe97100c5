-- ===== src/Inlet/Schema.antt =====
-- The subset of JSON Schema that a task may use: CheckSchema and checkNode in
-- internal/inlet/schema.go. `Check` is Go's error, `ok` for nil.
use cogitorium.Prelude.{
  ℕ, zero, suc, Bool, true, false, Option, none, some, List, [], ◌∷◌, any, Text, codes, text_eq,
}
use cogitorium.Inlet.Keyword
use cogitorium.Inlet.Json.{
  Value, boolean, number, string, array, object, Items, nil, cons, Fields, end, field, get,
  depth_fields,
}

pub data Complaint : Type 0 where
  keyword_unsupported type_not_single type_unknown enum_empty properties_not_object : Complaint
  property_not_object required_not_array required_not_names additional_not_bool : Complaint
  items_not_object bound_not_number : Complaint
  schema_unreadable body_too_large body_empty body_not_json body_has_more : Complaint
  wrong_type not_allowed too_short too_long not_comparable too_small too_big : Complaint
  missing undeclared too_few too_many out_of_fuel : Complaint

pub data Check : Type 0 where
  ok : Check
  refused : Complaint → Check

-- if err := a; err != nil { return err }; b
infixr 5 ◌>>◌
abbrev pub ◌>>◌ : Check → Check → Check
ok >> b = b
refused c >> b = refused c

abbrev pub require : Bool → Complaint → Check
require true c = ok
require false c = refused c

abbrev pub bound_keywords : List Text
bound_keywords =
    Keyword.min_items ∷ Keyword.max_items ∷ Keyword.min_length ∷ Keyword.max_length
    ∷ Keyword.minimum ∷ Keyword.maximum ∷ []

unfoldable pub supported_keywords : List Text
supported_keywords =
    codes "$schema"
    ∷ codes "title"
    ∷ codes "description"
    ∷ Keyword.type
    ∷ Keyword.enum
    ∷ Keyword.properties
    ∷ Keyword.required
    ∷ Keyword.additional
    ∷ Keyword.items
    ∷ bound_keywords

unfoldable pub supported_types : List Text
supported_types =
    codes "object"
    ∷ codes "array"
    ∷ codes "string"
    ∷ codes "number"
    ∷ codes "integer"
    ∷ codes "boolean"
    ∷ codes "null"
    ∷ []

unfoldable pub is_keyword : Text → Bool
unfolding supported_keywords text_eq
is_keyword k = any (text_eq k) supported_keywords

unfoldable pub is_type : Text → Bool
unfolding supported_types text_eq
is_type t = any (text_eq t) supported_types

unfoldable pub check_keywords : Fields → Check
unfolding is_keyword
check_keywords end = ok
check_keywords (field k v fs) = require (is_keyword k) keyword_unsupported >> check_keywords fs

unfoldable pub check_type : Option Value → Check
unfolding is_type
check_type none = ok
check_type (some (string t)) = require (is_type t) type_unknown
check_type (some _) = refused type_not_single

unfoldable pub check_enum : Option Value → Check
check_enum none = ok
check_enum (some (array (cons x xs))) = ok
check_enum (some _) = refused enum_empty

-- for name, sub := range props; `check` is checkNode
unfoldable pub check_each : (Fields → Check) → Fields → Check
check_each check end = ok
check_each check (field name (object sub) fs) = check sub >> check_each check fs
check_each check (field name _ fs) = refused property_not_object

unfoldable pub check_properties : (Fields → Check) → Option Value → Check
unfolding check_each
check_properties check none = ok
check_properties check (some (object props)) = check_each check props
check_properties check (some _) = refused properties_not_object

unfoldable pub check_names : Items → Check
check_names nil = ok
check_names (cons (string name) xs) = check_names xs
check_names (cons _ xs) = refused required_not_names

unfoldable pub check_required : Option Value → Check
unfolding check_names
check_required none = ok
check_required (some (array names)) = check_names names
check_required (some _) = refused required_not_array

unfoldable pub check_additional : Option Value → Check
check_additional none = ok
check_additional (some (boolean b)) = ok
check_additional (some _) = refused additional_not_bool

unfoldable pub check_items : (Fields → Check) → Option Value → Check
check_items check none = ok
check_items check (some (object sub)) = check sub
check_items check (some _) = refused items_not_object

unfoldable pub check_bound : Option Value → Check
check_bound none = ok
check_bound (some (number n)) = ok
check_bound (some _) = refused bound_not_number

unfoldable pub check_bounds : Fields → List Text → Check
unfolding check_bound get
check_bounds node [] = ok
check_bounds node (k ∷ ks) = check_bound (get k node) >> check_bounds node ks

-- The parts of a node, in the order of the source; `check` is the call for a nested schema.
unfoldable pub check_parts : (Fields → Check) → Fields → Check
unfolding check_keywords check_type check_enum check_properties check_required check_additional
    check_items check_bounds get
check_parts check node =
    check_keywords node
    >> check_type (get Keyword.type node)
    >> check_enum (get Keyword.enum node)
    >> check_properties check (get Keyword.properties node)
    >> check_required (get Keyword.required node)
    >> check_additional (get Keyword.additional node)
    >> check_items check (get Keyword.items node)
    >> check_bounds node bound_keywords

unfoldable pub check_node : ℕ → Fields → Check
unfolding check_parts
check_node zero node = refused out_of_fuel
check_node (suc fuel) node = check_parts (check_node fuel) node

-- checkNode on a decoded schema, with a round for each level of it
unfoldable pub check_schema : Fields → Check
unfolding check_node depth_fields
check_schema node = check_node (suc (depth_fields node)) node
