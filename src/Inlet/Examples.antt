-- ===== src/Inlet/Examples.antt =====
-- Tests of the inlet's checks, and its theorems at concrete inputs: an order with a name of at most
-- four characters and a list of whole quantities.
use mathlib.Core.Logic.{◌↔◌}
use cogitorium.Prelude.{
  false, ◌⊎◌, [], ℕ, ◌<◌, ◌≤◌, ◌≡◌, refl, true, false, Option, none, some, arith, if◌then◌else◌,
  all, Text, codes, text_eq, unsigned, is_digit, is_empty, trim_space, ℤ, pos, atoi, ltb,
}
use cogitorium.Inlet.Keyword
use cogitorium.Inlet.Json.{
  Value, null, boolean, number, string, array, object, nil, cons, Fields, end, field, get, depth,
}
use cogitorium.Inlet.Schema.{ok, refused, undeclared, too_long, keyword_unsupported, check_schema}
use cogitorium.Inlet.Validate.{Floats, matches_type, validate_within, validate}
use cogitorium.Inlet.Body.{
  max_json_payload, byte_length, decode_object, check_schema_text, validate_payload,
}
use cogitorium.Inlet.Fits.{Fits}
use cogitorium.Inlet.Complete.{validate_agrees}
use cogitorium.Inlet.Door.{Delivers, validate_payload_takes}
use cogitorium.Inlet.Fuel.{ran_out}
use cogitorium.Inlet.Enough.{validate_ends}
use cogitorium.Inlet.Enforced.{Known, Tells}
use cogitorium.Inlet.Supported.{Within, itself, under_items, under_property, accepted_is_enforced}
use cogitorium.Inlet.Whole.{integer_is_digits}

-- every number below 2 ^ 53 is a float64; texts that are not decimal integers are left out here
abbrev value_of : Option ℤ → ℕ
value_of (some (pos n)) = n
value_of _ = 0

whole_numbers : Floats
unfolding atoi
whole_numbers = record {
  is_float = λ t. all is_digit t;
  less = λ a b. ltb (value_of (atoi a)) (value_of (atoi b));
  whole = λ t. pos (value_of (atoi t));
}

abbrev quantity : Fields
quantity =
    field Keyword.type (string (codes "integer")) (field Keyword.minimum (number (codes "1")) end)

abbrev name : Fields
name =
    field Keyword.type (string (codes "string")) (field Keyword.max_length (number (codes "4")) end)

abbrev quantities : Fields
quantities = field Keyword.type (string (codes "array")) (field Keyword.items (object quantity) end)

abbrev order : Fields
order = field Keyword.type (string (codes "object")) (
    field Keyword.required (array (cons (string (codes "name")) nil)) (
      field Keyword.additional (boolean false) (
        field Keyword.properties
          (object
            (field (codes "name") (object name) (field (codes "lines") (object quantities) end)))
          end)))

abbrev bolts : Value
bolts = object (
    field (codes "lines") (array (cons (number (codes "3")) nil))
      (field (codes "name") (string (codes "bolt")) end))

order_accepted : check_schema order ≡ ok
unfolding check_schema
order_accepted = refl

bolts_pass : validate whole_numbers order bolts ≡ ok
unfolding validate whole_numbers
bolts_pass = refl

long_name :
    validate whole_numbers order (object (field (codes "name") (string (codes "bolts")) end))
    ≡ refused too_long
unfolding validate whole_numbers
long_name = refl

unknown_field :
    validate whole_numbers order
      (object (field (codes "name") (string (codes "bolt")) (field (codes "color") null end)))
    ≡ refused undeclared
unfolding validate whole_numbers
unknown_field = refl

pattern_refused :
    check_schema (field (codes "items") (object (field (codes "pattern") null end)) end)
    ≡ refused keyword_unsupported
unfolding check_schema
pattern_refused = refl

validate_agrees_example : (validate whole_numbers order bolts ≡ ok) ↔ Fits whole_numbers order bolts
validate_agrees_example = validate_agrees whole_numbers order bolts order_accepted

nested : depth bolts < 9
unfolding depth
nested = omega arith

validate_ends_example :
    (ran_out (validate whole_numbers order bolts) ≡ false)
    × (validate_within whole_numbers 9 order bolts ≡ validate whole_numbers order bolts)
validate_ends_example = validate_ends whole_numbers order bolts 9 nested

minus_twelve : matches_type (codes "integer") (number (codes "-12")) ≡ true
unfolding matches_type
minus_twelve = refl

integer_is_digits_example :
    (n : Text) × (number (codes "-12") ≡ number n) × (all is_digit (unsigned n) ≡ true)
integer_is_digits_example = integer_is_digits (number (codes "-12")) minus_twelve

-- a decoder that knows the schema above, and the value above with text after it or none
decode_two : Text → Option (Value × Text)
unfolding text_eq
decode_two t =
    if text_eq t (codes "order")
    then some (object order, [])
    else if text_eq t (codes "bolts")
    then some (bolts, [])
    else if text_eq t (codes "bolts]!")
    then some (bolts, codes "]!")
    else none

schema_accepted : check_schema_text decode_two (codes "order") ≡ ok
unfolding check_schema_text decode_two check_schema
schema_accepted = refl

validate_payload_takes_example :
    (node : Fields) × (decode_object decode_two (codes "order") ≡ some node)
    × ((validate_payload whole_numbers decode_two (codes "order") (codes "bolts") ≡ ok) ↔ (
        (byte_length (codes "bolts") ≤ max_json_payload)
        × ((is_empty (trim_space (codes "bolts")) ≡ false)
            × Delivers whole_numbers decode_two node (codes "bolts"))))
validate_payload_takes_example =
    validate_payload_takes whole_numbers decode_two (codes "order") (codes "bolts") schema_accepted

payload_taken : validate_payload whole_numbers decode_two (codes "order") (codes "bolts") ≡ ok
unfolding validate_payload decode_two whole_numbers validate
payload_taken = refl

-- What follows a closing bracket is not looked at.
trailing_taken : validate_payload whole_numbers decode_two (codes "order") (codes "bolts]!") ≡ ok
unfolding validate_payload decode_two whole_numbers validate
trailing_taken = refl

quantity_nested : Within quantity order
unfolding get text_eq
quantity_nested = under_property (codes "lines") refl refl (under_items refl itself)

minimum_there : get Keyword.minimum quantity ≡ some (number (codes "1"))
unfolding get text_eq
minimum_there = refl

accepted_is_enforced_example :
    Known Keyword.minimum
    × ((text_eq Keyword.minimum Keyword.type ≡ false)
        ⊎ ((t : Text) × (number (codes "1") ≡ string t) × Tells t))
accepted_is_enforced_example =
    accepted_is_enforced order quantity Keyword.minimum (number (codes "1")) order_accepted
      quantity_nested minimum_there
