-- ===== src/Inlet/Complete.antt =====
-- What fits a schema that checkNode accepts is accepted by validate, given a round for each level
-- of the value.
use mathlib.Core.Logic.{◌↔◌}
use cogitorium.Prelude.{ℕ, zero, suc, ◌<◌, ◌≡◌, refl, ap, ◌∙◌, Option, none, some, arith, Text}
use cogitorium.Inlet.Keyword
use cogitorium.Inlet.Json.{
  Value, null, boolean, number, string, array, object, Fields, end, get, names_of, sorted_names,
  depth, depth_fields,
}
use cogitorium.Inlet.Schema.{Check, ok, check_node, check_schema}
use cogitorium.Inlet.Validate.{
  Floats, fields_of, check_children, check_length, check_number, check_object, check_array,
  check_kind, check_value, validate_within, validate,
}
use cogitorium.Inlet.Fits.{
  Has, Fits, fits, KindFits, null_fits, boolean_fits, string_fits, number_fits, array_fits,
  object_fits,
}
use cogitorium.Inlet.Checks.{>>-of_ok, depth-get, depth-ItemOf, Has-of_sorted}
use cogitorium.Inlet.Accepted.{Accepted, Accepted-of_ok}
use cogitorium.Inlet.Sound.{validate_within-Fits}
use cogitorium.Inlet.Acceptance.{
  require-of_true, of_type-ok, of_enum-ok, has_required-ok, only_declared-ok, check_children-ok,
  each_item-ok, at_least-ok, at_most-ok, not_below-ok, not_above-ok,
}

declared_in_fields :
    {o : Option Value} (name : Text)
    → (props : Fields) × (o ≡ some (object props)) × Has props name
    → Has (fields_of o) name
declared_in_fields name (props, e, has) = rw e has

no_children :
    (check : Fields → Value → Check) (typed : Fields)
    → check_children check end typed (sorted_names end) ≡ ok
unfolding check_children sorted_names names_of
no_children check typed = refl

children_accepted :
    (check : Fields → Value → Check) (o : Option Value) (typed : Fields)
    → ((props : Fields) (name : Text) (raw : Value)
        → o ≡ some (object props)
        → get name props ≡ some raw
        → (sub : Fields) × (raw ≡ object sub)
          × ((child : Value) → get name typed ≡ some child → check sub child ≡ ok))
    → check_children check (fields_of o) typed (sorted_names (fields_of o)) ≡ ok
children_accepted check (some (object props)) typed h =
    check_children-ok check props typed (sorted_names props) λ name m.
      let (raw, p) = Has-of_sorted name props m in
      let (sub, q, accepts) = h props name raw refl p in (sub, p ∙ ap some q, accepts)
children_accepted check none typed h = no_children check typed
children_accepted check (some null) typed h = no_children check typed
children_accepted check (some (boolean _)) typed h = no_children check typed
children_accepted check (some (number _)) typed h = no_children check typed
children_accepted check (some (string _)) typed h = no_children check typed
children_accepted check (some (array _)) typed h = no_children check typed

module _ (F : Floats) where
  kind_passes :
      (g : ℕ) (check : Fields → Value → Check) (s : Fields) (v : Value)
      → Accepted g s
      → ((sub : Fields) (w : Value)
          → check_node g sub ≡ ok
          → Fits F sub w
          → depth w < depth v
          → check sub w ≡ ok)
      → KindFits F s v
      → check_kind F check s v ≡ ok
  unfolding check_kind check_length check_number check_object check_array depth
  kind_passes g check s _ a ih null_fits = refl
  kind_passes g check s _ a ih boolean_fits = refl
  kind_passes g check s (string t) a ih (string_fits c) =
      >>-of_ok _ _ (at_least-ok F _ _ _ c.0) (at_most-ok F _ _ _ c.1)
  kind_passes g check s (number n) a ih (number_fits c) =
      >>-of_ok _ _ (require-of_true _ _ c.comparable)
        (>>-of_ok _ _ (not_below-ok F _ n c.above) (not_above-ok F _ n c.below))
  kind_passes g check s (array xs) a ih (array_fits c each) =
      >>-of_ok _ _ (at_least-ok F _ _ _ c.0) (
        >>-of_ok _ _ (at_most-ok F _ _ _ c.1) (
          each_item-ok check _ xs λ sub x e m.
            let d = depth-ItemOf xs m in
            ih sub x (a.item_schema sub e) (each sub x e m) (omega (arith, d))))
  kind_passes g check s (object typed) a ih (object_fits c each) =
      >>-of_ok _ _ (has_required-ok _ typed a.names c.present) (
        >>-of_ok _ _
          (only_declared-ok _ (fields_of (get Keyword.properties s)) typed
            λ e name m. declared_in_fields name (c.declared name e m))
          (children_accepted check (get Keyword.properties s) typed λ props name raw e p.
            let (sub, q, k) = a.each_property props name raw e p in
            (
              sub,
              q,
              λ child m.
                  let d = depth-get name typed m in
                  ih sub child k (each props sub name child e (p ∙ ap some q) m) (omega (arith, d)),
            )))

  pub Fits-accepted :
      (f g : ℕ) (s : Fields) (v : Value)
      → check_node g s ≡ ok
      → Fits F s v
      → depth v < f
      → validate_within F f s v ≡ ok
  unfolding validate_within check_value
  Fits-accepted zero g s v k h d = absurd (omega arith)
  Fits-accepted (suc f) zero s v k h d = unfold check_node in cc
  Fits-accepted (suc f) (suc g) s v k (fits head kind) d =
      let a = Accepted-of_ok g s k in
      >>-of_ok _ _ (of_type-ok _ v head.typed) (
        >>-of_ok _ _ (of_enum-ok _ v a.enumeration head.allowed) (
          kind_passes g (validate_within F f) s v a
            (λ sub w k h e. Fits-accepted f g sub w k h (omega arith)) kind))

  -- For a schema that checkNode accepts, validate accepts a value if and only if the value fits the
  -- schema.
  pub validate_agrees :
      (s : Fields) (v : Value) → check_schema s ≡ ok → (validate F s v ≡ ok) ↔ Fits F s v
  unfolding validate check_schema
  validate_agrees s v k = (
    validate_within-Fits F (suc (depth v)) s v,
    λ h. Fits-accepted (suc (depth v)) (suc (depth_fields s)) s v k h (omega arith),
  )
