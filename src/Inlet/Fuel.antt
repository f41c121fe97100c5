-- ===== src/Inlet/Fuel.antt =====
-- validate and checkNode end: a round for each level is enough, and more rounds change nothing.
use cogitorium.Prelude.{
  ℕ, zero, suc, ◌<◌, ◌≡◌, refl, Bool, true, false, Option, none, some, List, [], ◌∷◌, arith, Text,
}
use cogitorium.Inlet.Keyword
use cogitorium.Inlet.Json.{
  Value, null, boolean, number, string, array, object, Items, nil, cons, Fields, end, field, get,
  depth,
}
use cogitorium.Inlet.Schema.{Complaint, out_of_fuel, Check, ok, refused, ◌>>◌, require}
use cogitorium.Inlet.Validate.{
  Floats, of_type, of_enum, fields_of, check_present, has_required, check_declared, only_declared,
  check_child, check_children, check_all, each_item, at_least, at_most, not_below, not_above,
  check_length, check_number, check_object, check_array, check_kind, check_value, validate_within,
}
use cogitorium.Inlet.Fits.{ItemOf, here, there}
use cogitorium.Inlet.Checks.{depth-get, depth-ItemOf}

abbrev pub ran_out : Check → Bool
ran_out ok = false
ran_out (refused out_of_fuel) = true
ran_out (refused _) = false

-- The check came to an end of its own.
pub record Ends (c : Check) : Type 0 where
  pub ended : ran_out c ≡ false

>>-Ends : (a b : Check) → Ends a → Ends b → Ends (a >> b)
>>-Ends ok b h k = k
>>-Ends (refused c) b h k = h

passes : Ends ok
passes = record { ended = refl }

require-Ends : (b : Bool) (c : Complaint) → ran_out (refused c) ≡ false → Ends (require b c)
require-Ends true c h = passes
require-Ends false c h = record { ended = h }

of_type-Ends : (o : Option Value) (v : Value) → Ends (of_type o v)
unfolding of_type
of_type-Ends (some (string t)) v = require-Ends _ _ refl
of_type-Ends none v = passes
of_type-Ends (some _) v = passes

of_enum-Ends : (o : Option Value) (v : Value) → Ends (of_enum o v)
unfolding of_enum
of_enum-Ends none v = passes
of_enum-Ends (some raw) v = require-Ends _ _ refl

check_present-Ends : (xs : Items) (typed : Fields) → Ends (check_present xs typed)
unfolding check_present
check_present-Ends nil typed = passes
check_present-Ends (cons x xs) typed =
    >>-Ends _ _ (require-Ends _ _ refl) (check_present-Ends xs typed)

has_required-Ends : (o : Option Value) (typed : Fields) → Ends (has_required o typed)
unfolding has_required
has_required-Ends none typed = passes
has_required-Ends (some raw) typed = check_present-Ends _ typed

check_declared-Ends : (props typed : Fields) → Ends (check_declared props typed)
unfolding check_declared
check_declared-Ends props end = passes
check_declared-Ends props (field k v typed) =
    >>-Ends _ _ (require-Ends _ _ refl) (check_declared-Ends props typed)

only_declared-Ends : (o : Option Value) (props typed : Fields) → Ends (only_declared o props typed)
unfolding only_declared
only_declared-Ends (some (boolean false)) props typed = check_declared-Ends props typed
only_declared-Ends (some (boolean true)) props typed = passes
only_declared-Ends none props typed = passes
only_declared-Ends (some _) props typed = passes

check_child-Ends :
    (check : Fields → Value → Check) (sub o : Option Value)
    → ((s : Fields) (child : Value) → o ≡ some child → Ends (check s child))
    → Ends (check_child check sub o)
check_child-Ends check sub none h = passes
check_child-Ends check sub (some child) h = h (fields_of sub) child refl

check_children-Ends :
    (check : Fields → Value → Check) (props typed : Fields) (names : List Text)
    → ((s : Fields) (name : Text) (child : Value)
        → get name typed ≡ some child
        → Ends (check s child))
    → Ends (check_children check props typed names)
unfolding check_children
check_children-Ends check props typed [] h = passes
check_children-Ends check props typed (k ∷ names) h =
    >>-Ends _ _ (check_child-Ends check (get k props) (get k typed) (λ s child e. h s k child e))
      (check_children-Ends check props typed names h)

check_all-Ends :
    (check : Value → Check) (xs : Items)
    → ((x : Value) → ItemOf x xs → Ends (check x))
    → Ends (check_all check xs)
unfolding check_all
check_all-Ends check nil h = passes
check_all-Ends check (cons x xs) h =
    >>-Ends _ _ (h x here) (check_all-Ends check xs (λ y m. h y (there m)))

each_item-Ends :
    (check : Fields → Value → Check) (o : Option Value) (xs : Items)
    → ((s : Fields) (x : Value) → ItemOf x xs → Ends (check s x))
    → Ends (each_item check o xs)
unfolding each_item
each_item-Ends check (some (object sub)) xs h = check_all-Ends (check sub) xs (h sub)
each_item-Ends check none xs h = passes
each_item-Ends check (some _) xs h = passes

module _ (F : Floats) where
  at_least-Ends :
      (o : Option Text) (n : ℕ) (c : Complaint)
      → ran_out (refused c) ≡ false
      → Ends (at_least F o n c)
  unfolding at_least
  at_least-Ends none n c h = passes
  at_least-Ends (some b) n c h = require-Ends _ c h

  at_most-Ends :
      (o : Option Text) (n : ℕ) (c : Complaint)
      → ran_out (refused c) ≡ false
      → Ends (at_most F o n c)
  unfolding at_most
  at_most-Ends none n c h = passes
  at_most-Ends (some b) n c h = require-Ends _ c h

  not_below-Ends : (o : Option Text) (n : Text) → Ends (not_below F o n)
  unfolding not_below
  not_below-Ends none n = passes
  not_below-Ends (some b) n = require-Ends _ _ refl

  not_above-Ends : (o : Option Text) (n : Text) → Ends (not_above F o n)
  unfolding not_above
  not_above-Ends none n = passes
  not_above-Ends (some b) n = require-Ends _ _ refl

  check_kind-Ends :
      (check : Fields → Value → Check) (s : Fields) (v : Value)
      → ((sub : Fields) (w : Value) → depth w < depth v → Ends (check sub w))
      → Ends (check_kind F check s v)
  unfolding check_kind check_length check_number check_object check_array depth
  check_kind-Ends check s null h = passes
  check_kind-Ends check s (boolean b) h = passes
  check_kind-Ends check s (string t) h =
      >>-Ends _ _ (at_least-Ends _ _ _ refl) (at_most-Ends _ _ _ refl)
  check_kind-Ends check s (number n) h =
      >>-Ends _ _ (require-Ends _ _ refl) (>>-Ends _ _ (not_below-Ends _ n) (not_above-Ends _ n))
  check_kind-Ends check s (array xs) h = >>-Ends _ _ (at_least-Ends _ _ _ refl) (
      >>-Ends _ _ (at_most-Ends _ _ _ refl) (
        each_item-Ends check _ xs
          λ sub x m. let d = depth-ItemOf xs m in h sub x (omega (arith, d))))
  check_kind-Ends check s (object typed) h = >>-Ends _ _ (has_required-Ends _ typed) (
      >>-Ends _ _ (only_declared-Ends _ _ typed) (
        check_children-Ends check _ typed _
          λ sub name x m. let d = depth-get name typed m in h sub x (omega (arith, d))))

  pub validate_within-Ends :
      (f : ℕ) (s : Fields) (v : Value) → depth v < f → Ends (validate_within F f s v)
  unfolding validate_within check_value
  validate_within-Ends zero s v d = absurd (omega arith)
  validate_within-Ends (suc f) s v d = >>-Ends _ _ (of_type-Ends (get Keyword.type s) v) (
      >>-Ends _ _ (of_enum-Ends (get Keyword.enum s) v) (
        check_kind-Ends (validate_within F f) s v
          λ sub w e. validate_within-Ends f sub w (omega arith)))
