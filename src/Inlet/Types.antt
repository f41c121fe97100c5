-- ===== src/Inlet/Types.antt =====
-- matchesType and inEnum decide what a type's name and an enumeration mean.
use cogitorium.Prelude.{
  ◌≡◌, refl, Bool, true, false, Option, none, some, arith, inl, inr, Bool-cases, if◌then◌else◌,
  Text, codes, text_eq, text_eq→eq, atoi, ℤ,
}
use cogitorium.Inlet.Json.{
  Value, null, boolean, number, string, array, object, Items, nil, cons, canonical, value_eq,
}
use cogitorium.Inlet.Validate.{
  is_some, is_object, is_array, is_string, is_boolean, is_null, is_number, is_integer, matches_type,
  in_enum,
}
use cogitorium.Inlet.Fits.{
  HasType, an_object, an_array, a_string, a_boolean, the_null, a_number, an_integer, Among, first,
  later,
}
use cogitorium.Inlet.Checks.{value_eq→eq, value_eq_refl}

-- A conditional that is true took one of its branches.
by_branch {ℓ} :
    {P : Type ℓ} (b c d : Bool)
    → (if b then c else d) ≡ true
    → (b ≡ true → c ≡ true → P)
    → (d ≡ true → P)
    → P
by_branch true c d h f g = f refl h
by_branch false c d h f g = g h

module _ (t : Text) where
  -- A value of each kind, under the name of the kind.
  object_type : (v : Value) → t ≡ codes "object" → is_object v ≡ true → HasType t v
  unfolding is_object
  object_type (object fs) e h = an_object e
  object_type _ e h = cc

  array_type : (v : Value) → t ≡ codes "array" → is_array v ≡ true → HasType t v
  unfolding is_array
  array_type (array xs) e h = an_array e
  array_type _ e h = cc

  string_type : (v : Value) → t ≡ codes "string" → is_string v ≡ true → HasType t v
  unfolding is_string
  string_type (string s) e h = a_string e
  string_type _ e h = cc

  boolean_type : (v : Value) → t ≡ codes "boolean" → is_boolean v ≡ true → HasType t v
  unfolding is_boolean
  boolean_type (boolean b) e h = a_boolean e
  boolean_type _ e h = cc

  null_type : (v : Value) → t ≡ codes "null" → is_null v ≡ true → HasType t v
  unfolding is_null
  null_type null e h = the_null e
  null_type _ e h = cc

  number_type : (v : Value) → t ≡ codes "number" → is_number v ≡ true → HasType t v
  unfolding is_number
  number_type (number n) e h = a_number e
  number_type _ e h = cc

  integer_in :
      (n : Text) (o : Option ℤ)
      → t ≡ codes "integer"
      → atoi n ≡ o
      → is_some o ≡ true
      → HasType t (number n)
  integer_in n none e q h = cc
  integer_in n (some i) e q h = an_integer e q

  integer_type : (v : Value) → t ≡ codes "integer" → is_integer v ≡ true → HasType t v
  unfolding is_integer
  integer_type (number n) e h = integer_in n (atoi n) e refl h
  integer_type _ e h = cc

  -- `matches_type` accepts only what has the type, whatever the name is.
  pub HasType-of_matches : (v : Value) → matches_type t v ≡ true → HasType t v
  unfolding matches_type
  HasType-of_matches v h =
      by_branch _ _ _ h (λ e. object_type v (text_eq→eq t _ e))
        λ h.
          by_branch _ _ _ h (λ e. array_type v (text_eq→eq t _ e))
            λ h.
              by_branch _ _ _ h (λ e. string_type v (text_eq→eq t _ e))
                λ h.
                  by_branch _ _ _ h (λ e. boolean_type v (text_eq→eq t _ e))
                    λ h.
                      by_branch _ _ _ h (λ e. null_type v (text_eq→eq t _ e))
                        λ h.
                          by_branch _ _ _ h (λ e. number_type v (text_eq→eq t _ e))
                            λ h. by_branch _ _ _ h (λ e. integer_type v (text_eq→eq t _ e)) λ h. cc

pub matches_type-of_HasType : (t : Text) (v : Value) → HasType t v → matches_type t v ≡ true
unfolding matches_type is_object is_array is_string is_boolean is_null is_number is_integer text_eq
matches_type-of_HasType t _ (an_object e) = rw e refl
matches_type-of_HasType t _ (an_array e) = rw e refl
matches_type-of_HasType t _ (a_string e) = rw e refl
matches_type-of_HasType t _ (a_boolean e) = rw e refl
matches_type-of_HasType t _ (the_null e) = rw e refl
matches_type-of_HasType t _ (a_number e) = rw e refl
matches_type-of_HasType t _ (an_integer e q) = rw e (rw q refl)

pub Among-of_in_enum : (v : Value) (xs : Items) → in_enum xs v ≡ true → Among v xs
unfolding in_enum
Among-of_in_enum v nil h = cc
Among-of_in_enum v (cons x xs) h = elim (Bool-cases (value_eq (canonical x) (canonical v))) [
  | inl e ↦ first (value_eq→eq _ _ e)
  | inr e ↦ later (Among-of_in_enum v xs (rw e at h))
]

pub in_enum-of_Among : (v : Value) (xs : Items) → Among v xs → in_enum xs v ≡ true
unfolding in_enum
in_enum-of_Among v nil m = elim m [ ]
in_enum-of_Among v (cons x xs) (first e) = rw (e, value_eq_refl (canonical v)) refl
in_enum-of_Among v (cons x xs) (later m) = ground (arith, in_enum-of_Among v xs m)
