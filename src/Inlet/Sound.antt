-- ===== src/Inlet/Sound.antt =====
-- What validate accepts fits the schema, whatever the fuel and whatever the schema.
use cogitorium.Prelude.{ℕ, zero, suc, ◌≡◌, length}
use cogitorium.Inlet.Keyword
use cogitorium.Inlet.Json.{
  Value, null, boolean, number, string, array, object, Fields, get, item_count, sorted_names,
}
use cogitorium.Inlet.Schema.{too_short, too_long, too_few, too_many, Check, ok}
use cogitorium.Inlet.Validate.{
  Floats, check_children, check_length, check_object, check_array, check_kind, check_value,
  validate_within,
}
use cogitorium.Inlet.Fits.{
  Fits, fits, KindFits, null_fits, boolean_fits, string_fits, number_fits, array_fits, object_fits,
}
use cogitorium.Inlet.Checks.{>>-ok, mem-sorted_names}
use cogitorium.Inlet.Refusals.{
  of_type-Has, of_enum-Among, has_required-Has, only_declared-Has, Has-fields_of,
  check_children-sound, each_item-sound, CountFits-of_ok, NumberFits-of_ok,
}

module _ (F : Floats) where
  KindFits-of_ok :
      (check : Fields → Value → Check)
      → ((s : Fields) (v : Value) → check s v ≡ ok → Fits F s v)
      → (s : Fields) (v : Value) → check_kind F check s v ≡ ok
      → KindFits F s v
  unfolding check_kind check_length check_object check_array
  KindFits-of_ok check ih s null h = null_fits
  KindFits-of_ok check ih s (boolean b) h = boolean_fits
  KindFits-of_ok check ih s (number n) h = number_fits (NumberFits-of_ok F s n h)
  KindFits-of_ok check ih s (string t) h =
      let (a, b) = >>-ok _ _ h in
      string_fits (CountFits-of_ok F s _ _ (length t) too_short too_long a b)
  KindFits-of_ok check ih s (array xs) h =
      let (a, r) = >>-ok _ _ h in
      let (b, c) = >>-ok _ _ r in
      array_fits (CountFits-of_ok F s _ _ (item_count xs) too_few too_many a b)
        λ sub x e m. each_item-sound (Fits F) check ih _ sub xs e c m
  KindFits-of_ok check ih s (object typed) h =
      let (a, r) = >>-ok _ _ h in
      let (b, c) = >>-ok _ _ r in
      object_fits
        (record {
          present = λ xs name e m. has_required-Has _ typed xs name e a m;
          declared = λ name e (v, m).
              Has-fields_of (get Keyword.properties s) name
                (only_declared-Has _ _ typed name e b m);
        })
        λ props sub name child e p m.
          let d : check_children check props typed (sorted_names props) ≡ ok = rw e at c in
          check_children-sound (Fits F) check ih props typed sub (sorted_names props) d
            (mem-sorted_names name props p) p m

  Fits-of_check :
      (check : Fields → Value → Check)
      → ((s : Fields) (v : Value) → check s v ≡ ok → Fits F s v)
      → (s : Fields) (v : Value) → check_value F check s v ≡ ok
      → Fits F s v
  unfolding check_value
  Fits-of_check check ih s v h =
      let (a, r) = >>-ok _ _ h in
      let (b, c) = >>-ok _ _ r in
      fits
        (record {
          typed = λ t e. of_type-Has _ v t e a;
          allowed = λ xs e. of_enum-Among _ v xs e b;
        })
        (KindFits-of_ok check ih s v c)

  pub validate_within-Fits :
      (f : ℕ) (s : Fields) (v : Value) → validate_within F f s v ≡ ok → Fits F s v
  unfolding validate_within
  validate_within-Fits zero s v h = cc
  validate_within-Fits (suc f) s v h =
      Fits-of_check (validate_within F f) (validate_within-Fits f) s v h
