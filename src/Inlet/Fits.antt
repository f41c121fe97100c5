-- ===== src/Inlet/Fits.antt =====
-- What a schema means, with no order of checks and no errors: the values that fit it.
use cogitorium.Prelude.{
  ℕ, ◌≤◌, ◌≡◌, Bool, true, false, some, Text, codes, length, ℤ, pos, negsuc, atoi,
}
use cogitorium.Inlet.Keyword
use cogitorium.Inlet.Json.{
  Value, null, boolean, number, string, array, object, Items, cons, Fields, get, item_count,
  canonical,
}
use cogitorium.Inlet.Validate.{Floats}

abbrev pub ◌≤ℤ◌ : ℤ → ℤ → Type 0
pos a ≤ℤ pos b = a ≤ b
pos a ≤ℤ negsuc b = ⊥
negsuc a ≤ℤ pos b = Unit
negsuc a ≤ℤ negsuc b = b ≤ a

infix 50 ◌≤ℤ◌
pub data HasType (t : Text) : Value → Type 0 where
  an_object : {fs : Fields} → t ≡ codes "object" → HasType t (object fs)
  an_array : {xs : Items} → t ≡ codes "array" → HasType t (array xs)
  a_string : {s : Text} → t ≡ codes "string" → HasType t (string s)
  a_boolean : {b : Bool} → t ≡ codes "boolean" → HasType t (boolean b)
  the_null : t ≡ codes "null" → HasType t null
  a_number : {n : Text} → t ≡ codes "number" → HasType t (number n)
  an_integer : {n : Text} {i : ℤ} → t ≡ codes "integer" → atoi n ≡ some i → HasType t (number n)

-- `x` is an entry of the array.
pub data ItemOf (x : Value) : Items → Type 0 where
  here : {xs : Items} → ItemOf x (cons x xs)
  there : {y : Value} {xs : Items} → ItemOf x xs → ItemOf x (cons y xs)

-- `v` is an entry up to the order of the keys in objects.
pub data Among (v : Value) : Items → Type 0 where
  first : {y : Value} {xs : Items} → canonical y ≡ canonical v → Among v (cons y xs)
  later : {y : Value} {xs : Items} → Among v xs → Among v (cons y xs)

-- `child` is the field `name` of an object.
abbrev pub Has : Fields → Text → Type 0
Has fs name = (child : Value) × (get name fs ≡ some child)

module _ (F : Floats) where
  abbrev pub CountFits : Fields → Text → Text → ℕ → Type 0
  CountFits s low high n =
      ((b : Text) → get low s ≡ some (number b) → F.is_float b ≡ true → F.whole b ≤ℤ pos n)
      × ((b : Text) → get high s ≡ some (number b) → F.is_float b ≡ true → pos n ≤ℤ F.whole b)

  pub record NumberFits (s : Fields) (n : Text) : Type 0 where
    pub comparable : F.is_float n ≡ true
    pub above :
        (b : Text)
        → get Keyword.minimum s ≡ some (number b)
        → F.is_float b ≡ true
        → F.less n b ≡ false
    pub below :
        (b : Text)
        → get Keyword.maximum s ≡ some (number b)
        → F.is_float b ≡ true
        → F.less b n ≡ false

  -- The field names that a schema asks for and those that it allows.
  pub record NamesFit (s typed : Fields) : Type 0 where
    pub present :
        (names : Items) (name : Text)
        → get Keyword.required s ≡ some (array names)
        → ItemOf (string name) names
        → Has typed name
    pub declared :
        (name : Text)
        → get Keyword.additional s ≡ some (boolean false)
        → Has typed name
        → (props : Fields) × (get Keyword.properties s ≡ some (object props)) × Has props name

  pub record HeadFits (s : Fields) (v : Value) : Type 0 where
    pub typed : (t : Text) → get Keyword.type s ≡ some (string t) → HasType t v
    pub allowed : (list : Items) → get Keyword.enum s ≡ some (array list) → Among v list

  mutual
    pub data Fits : Fields → Value → Type 0 where
      fits : {s : Fields} {v : Value} → HeadFits s v → KindFits s v → Fits s v

    pub data KindFits : Fields → Value → Type 0 where
      null_fits : {s : Fields} → KindFits s null
      boolean_fits : {s : Fields} {b : Bool} → KindFits s (boolean b)
      string_fits :
          {s : Fields} {t : Text}
          → CountFits s Keyword.min_length Keyword.max_length (length t)
          → KindFits s (string t)
      number_fits : {s : Fields} {n : Text} → NumberFits s n → KindFits s (number n)
      array_fits :
          {s : Fields} {xs : Items}
          → CountFits s Keyword.min_items Keyword.max_items (item_count xs)
          → ((sub : Fields) (x : Value)
              → get Keyword.items s ≡ some (object sub)
              → ItemOf x xs
              → Fits sub x)
          → KindFits s (array xs)
      object_fits :
          {s typed : Fields}
          → NamesFit s typed
          → ((props sub : Fields) (name : Text) (child : Value)
              → get Keyword.properties s ≡ some (object props)
              → get name props ≡ some (object sub)
              → get name typed ≡ some child
              → Fits sub child)
          → KindFits s (object typed)
