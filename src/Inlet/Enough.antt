-- ===== src/Inlet/Enough.antt =====
-- More rounds than a value has levels give validate the result that it has.
use cogitorium.Prelude.{
  ℕ, zero, suc, ◌<◌, ◌≡◌, refl, false, Option, none, some, List, [], ◌∷◌, arith, Text,
}
use cogitorium.Inlet.Keyword
use cogitorium.Inlet.Json.{
  Value, null, boolean, number, string, array, object, Items, nil, cons, Fields, get, sorted_names,
  depth,
}
use cogitorium.Inlet.Schema.{Check}
use cogitorium.Inlet.Validate.{
  Floats, fields_of, check_child, check_children, check_all, each_item, check_object, check_array,
  check_kind, check_value, validate_within, validate,
}
use cogitorium.Inlet.Fits.{ItemOf, here, there}
use cogitorium.Inlet.Checks.{depth-get, depth-ItemOf}
use cogitorium.Inlet.Fuel.{ran_out, validate_within-Ends}

module _ (check check' : Fields → Value → Check) where
  child_agrees :
      (sub o : Option Value)
      → ((s : Fields) (child : Value) → o ≡ some child → check s child ≡ check' s child)
      → check_child check sub o ≡ check_child check' sub o
  child_agrees sub none h = refl
  child_agrees sub (some child) h = h (fields_of sub) child refl

  children_agree :
      (props typed : Fields) (names : List Text)
      → ((s : Fields) (name : Text) (child : Value)
          → get name typed ≡ some child
          → check s child ≡ check' s child)
      → check_children check props typed names ≡ check_children check' props typed names
  unfolding check_children
  children_agree props typed [] h = refl
  children_agree props typed (k ∷ names) h =
      rw (child_agrees (get k props) (get k typed) (λ s. h s k), children_agree props typed names h)
        refl

  all_agree :
      (s : Fields) (xs : Items)
      → ((x : Value) → ItemOf x xs → check s x ≡ check' s x)
      → check_all (check s) xs ≡ check_all (check' s) xs
  unfolding check_all
  all_agree s nil h = refl
  all_agree s (cons x xs) h = rw (h x here, all_agree s xs (λ y m. h y (there m))) refl

  items_agree :
      (o : Option Value) (xs : Items)
      → ((s : Fields) (x : Value) → ItemOf x xs → check s x ≡ check' s x)
      → each_item check o xs ≡ each_item check' o xs
  unfolding each_item
  items_agree (some (object sub)) xs h = all_agree sub xs (h sub)
  items_agree none xs h = refl
  items_agree (some _) xs h = refl

  kind_agrees :
      (F : Floats) (s : Fields) (v : Value)
      → ((sub : Fields) (w : Value) → depth w < depth v → check sub w ≡ check' sub w)
      → check_kind F check s v ≡ check_kind F check' s v
  unfolding check_kind check_object check_array depth
  kind_agrees F s (array xs) h =
      rw
        (items_agree (get Keyword.items s) xs
          (λ sub x m. let d = depth-ItemOf xs m in h sub x (omega (arith, d))))
        refl
  kind_agrees F s (object typed) h =
      let props = fields_of (get Keyword.properties s) in
      rw
        (children_agree props typed (sorted_names props)
          (λ sub name x m. let d = depth-get name typed m in h sub x (omega (arith, d))))
        refl
  kind_agrees F s null h = refl
  kind_agrees F s (boolean b) h = refl
  kind_agrees F s (number n) h = refl
  kind_agrees F s (string t) h = refl

rounds_agree :
    (F : Floats) (f g : ℕ) (s : Fields) (v : Value)
    → depth v < f
    → depth v < g
    → validate_within F f s v ≡ validate_within F g s v
unfolding validate_within check_value
rounds_agree F zero g s v d e = absurd (omega arith)
rounds_agree F (suc f) zero s v d e = absurd (omega arith)
rounds_agree F (suc f) (suc g) s v d e =
    rw
      (kind_agrees (validate_within F f) (validate_within F g) F s v
        (λ sub w k. rounds_agree F f g sub w (omega arith) (omega arith)))
      refl

-- validate does not run out of rounds, whatever the schema and the value, and any number of rounds
-- above the depth of the value gives the same result.
pub validate_ends :
    (F : Floats) (s : Fields) (v : Value) (f : ℕ)
    → depth v < f
    → (ran_out (validate F s v) ≡ false) × (validate_within F f s v ≡ validate F s v)
unfolding validate
validate_ends F s v f h = (
  (validate_within-Ends F (suc (depth v)) s v (omega arith)).ended,
  rounds_agree F f (suc (depth v)) s v h (omega arith),
)
