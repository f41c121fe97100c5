-- ===== src/Inlet/Enforced.antt =====
-- What each keyword that internal/inlet/schema.go supports does to a value: it refuses one that was
-- accepted without it, or it is there for readers only.
use cogitorium.Prelude.{
  ℕ, ◌≡◌, ◌≢◌, refl, true, false, Option, some, List, [], ◌∷◌, Text, codes, text_eq, ltb, ℤ, pos,
  atoi, all, is_digit, All, Memᴰ,
}
use cogitorium.Inlet.Keyword
use cogitorium.Inlet.Json.{
  Value, null, boolean, number, string, array, object, nil, cons, Fields, end, field,
}
use cogitorium.Inlet.Schema.{ok, check_schema, supported_keywords, supported_types}
use cogitorium.Inlet.Validate.{Floats, matches_type, validate}

-- decimal integers as floats
abbrev value_of : Option ℤ → ℕ
value_of (some (pos n)) = n
value_of _ = 0

decimals : Floats
unfolding atoi
decimals = record {
  is_float = λ t. all is_digit t;
  less = λ a b. ltb (value_of (atoi a)) (value_of (atoi b));
  whole = λ t. pos (value_of (atoi t));
}

-- Some schema with the keyword, which CheckSchema accepts, refuses a value that validate lets
-- through without it.
pub record Enforced (k : Text) : Type 0 where
  pub floats : Floats
  pub entry : Value
  pub others : Fields
  pub value : Value
  pub accepted : check_schema (field k entry others) ≡ ok
  pub passes : validate floats others value ≡ ok
  pub refuses : validate floats (field k entry others) value ≢ ok

abbrev pub annotations : List Text
annotations = codes "$schema" ∷ codes "title" ∷ codes "description" ∷ []

-- The values that a type tells apart.
pub record Tells (t : Text) : Type 0 where
  pub inside : Value
  pub outside : Value
  pub yes : matches_type t inside ≡ true
  pub no : matches_type t outside ≡ false

abbrev one : Value
one = number (codes "1")

abbrev pair_of : Value → Value
pair_of v = array (cons v (cons v nil))

abbrev a_null : Value
a_null = object (field (codes "a") null end)

abbrev strings : Value
strings = object (field Keyword.type (string (codes "string")) end)

Enforced-type : Enforced Keyword.type
unfolding check_schema validate decimals text_eq
Enforced-type = record {
  floats = decimals;
  entry = string (codes "string");
  others = end;
  value = null;
  accepted = refl;
  passes = refl;
  refuses = λ h. cc h;
}

Enforced-enum : Enforced Keyword.enum
unfolding check_schema validate decimals text_eq
Enforced-enum = record {
  floats = decimals;
  entry = array (cons (boolean true) nil);
  others = end;
  value = null;
  accepted = refl;
  passes = refl;
  refuses = λ h. cc h;
}

Enforced-properties : Enforced Keyword.properties
unfolding check_schema validate decimals text_eq
Enforced-properties = record {
  floats = decimals;
  entry = object (field (codes "a") strings end);
  others = end;
  value = a_null;
  accepted = refl;
  passes = refl;
  refuses = λ h. cc h;
}

Enforced-required : Enforced Keyword.required
unfolding check_schema validate decimals text_eq
Enforced-required = record {
  floats = decimals;
  entry = array (cons (string (codes "a")) nil);
  others = end;
  value = object end;
  accepted = refl;
  passes = refl;
  refuses = λ h. cc h;
}

Enforced-additional : Enforced Keyword.additional
unfolding check_schema validate decimals text_eq
Enforced-additional = record {
  floats = decimals;
  entry = boolean false;
  others = end;
  value = a_null;
  accepted = refl;
  passes = refl;
  refuses = λ h. cc h;
}

Enforced-items : Enforced Keyword.items
unfolding check_schema validate decimals text_eq
Enforced-items = record {
  floats = decimals;
  entry = strings;
  others = end;
  value = pair_of null;
  accepted = refl;
  passes = refl;
  refuses = λ h. cc h;
}

Enforced-min_items : Enforced Keyword.min_items
unfolding check_schema validate decimals text_eq
Enforced-min_items = record {
  floats = decimals;
  entry = one;
  others = end;
  value = array nil;
  accepted = refl;
  passes = refl;
  refuses = λ h. cc h;
}

Enforced-max_items : Enforced Keyword.max_items
unfolding check_schema validate decimals text_eq
Enforced-max_items = record {
  floats = decimals;
  entry = one;
  others = end;
  value = pair_of null;
  accepted = refl;
  passes = refl;
  refuses = λ h. cc h;
}

Enforced-min_length : Enforced Keyword.min_length
unfolding check_schema validate decimals text_eq
Enforced-min_length = record {
  floats = decimals;
  entry = one;
  others = end;
  value = string [];
  accepted = refl;
  passes = refl;
  refuses = λ h. cc h;
}

Enforced-max_length : Enforced Keyword.max_length
unfolding check_schema validate decimals text_eq
Enforced-max_length = record {
  floats = decimals;
  entry = one;
  others = end;
  value = string (codes "ab");
  accepted = refl;
  passes = refl;
  refuses = λ h. cc h;
}

Enforced-minimum : Enforced Keyword.minimum
unfolding check_schema validate decimals text_eq
Enforced-minimum = record {
  floats = decimals;
  entry = one;
  others = end;
  value = number (codes "0");
  accepted = refl;
  passes = refl;
  refuses = λ h. cc h;
}

Enforced-maximum : Enforced Keyword.maximum
unfolding check_schema validate decimals text_eq
Enforced-maximum = record {
  floats = decimals;
  entry = one;
  others = end;
  value = number (codes "2");
  accepted = refl;
  passes = refl;
  refuses = λ h. cc h;
}

-- A keyword is for readers only, or enforced.
pub data Known (k : Text) : Type 0 where
  annotation : Memᴰ k annotations → Known k
  checked : Enforced k → Known k

pub keywords_known : All Known supported_keywords
unfolding supported_keywords
keywords_known = (
  annotation (Memᴰ.head refl),
  (
    annotation (Memᴰ.tail (Memᴰ.head refl)),
    (
      annotation (Memᴰ.tail (Memᴰ.tail (Memᴰ.head refl))),
      (
        checked Enforced-type,
        (
          checked Enforced-enum,
          (
            checked Enforced-properties,
            (
              checked Enforced-required,
              (
                checked Enforced-additional,
                (
                  checked Enforced-items,
                  (
                    checked Enforced-min_items,
                    (
                      checked Enforced-max_items,
                      (
                        checked Enforced-min_length,
                        (
                          checked Enforced-max_length,
                          (checked Enforced-minimum, (checked Enforced-maximum, tt)),
                        ),
                      ),
                    ),
                  ),
                ),
              ),
            ),
          ),
        ),
      ),
    ),
  ),
)

pub types_tell : All Tells supported_types
unfolding supported_types matches_type text_eq atoi
types_tell = (
  record { inside = object end; outside = null; yes = refl; no = refl },
  (
    record { inside = array nil; outside = null; yes = refl; no = refl },
    (
      record { inside = string []; outside = null; yes = refl; no = refl },
      (
        record { inside = one; outside = null; yes = refl; no = refl },
        (
          record { inside = one; outside = null; yes = refl; no = refl },
          (
            record { inside = boolean true; outside = null; yes = refl; no = refl },
            (record { inside = null; outside = one; yes = refl; no = refl }, tt),
          ),
        ),
      ),
    ),
  ),
)
