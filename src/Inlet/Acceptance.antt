-- ===== src/Inlet/Acceptance.antt =====
-- What each part of validate needs to accept a value.
use cogitorium.Prelude.{
  ℕ, ◌≡◌, refl, ap, Bool, true, false, not, Option, none, some, List, [], ◌∷◌, arith, inl, inr,
  Bool-cases, Text, Memᴰ, ℤ, pos, negsuc,
}
use cogitorium.Inlet.Json.{
  Value, null, boolean, number, string, array, object, Items, nil, cons, Fields, end, field, get,
  names_of,
}
use cogitorium.Inlet.Schema.{
  Complaint, missing, undeclared, Check, ok, too_small, too_big, require, check_names,
}
use cogitorium.Inlet.Validate.{
  Floats, is_some, int_ltb, of_type, of_enum, check_present, has_required, check_declared,
  only_declared, check_child, check_children, check_all, each_item, number_in, at_least, at_most,
  not_below, not_above,
}
use cogitorium.Inlet.Fits.{◌≤ℤ◌, HasType, ItemOf, here, there, Among, Has}
use cogitorium.Inlet.Checks.{>>-of_ok, Has-of_mem}
use cogitorium.Inlet.Types.{matches_type-of_HasType, in_enum-of_Among}

pub require-of_true : (b : Bool) (c : Complaint) → b ≡ true → require b c ≡ ok
require-of_true true c h = refl
require-of_true false c h = cc

pub is_some-of : (o : Option Value) → (v : Value) × (o ≡ some v) → is_some o ≡ true
is_some-of o (v, e) = rw e refl

pub int_ltb-of_≤ℤ : (a b : ℤ) → b ≤ℤ a → not (int_ltb a b) ≡ true
unfolding int_ltb
int_ltb-of_≤ℤ (pos a) (pos b) h = ground arith
int_ltb-of_≤ℤ (pos a) (negsuc b) h = refl
int_ltb-of_≤ℤ (negsuc a) (pos b) h = absurd h
int_ltb-of_≤ℤ (negsuc a) (negsuc b) h = ground arith

pub of_type-ok :
    (o : Option Value) (v : Value)
    → ((t : Text) → o ≡ some (string t) → HasType t v)
    → of_type o v ≡ ok
unfolding of_type
of_type-ok none v h = refl
of_type-ok (some (string t)) v h = require-of_true _ _ (matches_type-of_HasType t v (h t refl))
of_type-ok (some null) v h = refl
of_type-ok (some (boolean _)) v h = refl
of_type-ok (some (number _)) v h = refl
of_type-ok (some (array _)) v h = refl
of_type-ok (some (object _)) v h = refl

pub of_enum-ok :
    (o : Option Value) (v : Value)
    → ((raw : Value) → o ≡ some raw → (xs : Items) × (raw ≡ array xs))
    → ((xs : Items) → o ≡ some (array xs) → Among v xs)
    → of_enum o v ≡ ok
unfolding of_enum
of_enum-ok none v shape h = refl
of_enum-ok (some raw) v shape h =
    let (xs, e) = shape raw refl in
    rw e (require-of_true _ _ (in_enum-of_Among v xs (h xs (ap some e))))

pub check_present-ok :
    (xs : Items) (typed : Fields)
    → check_names xs ≡ ok
    → ((name : Text) → ItemOf (string name) xs → Has typed name)
    → check_present xs typed ≡ ok
unfolding check_present check_names
check_present-ok nil typed c h = refl
check_present-ok (cons (string k) xs) typed c h =
    >>-of_ok _ _ (require-of_true _ missing (is_some-of (get k typed) (h k here)))
      (check_present-ok xs typed c (λ name m. h name (there m)))
check_present-ok (cons null xs) typed c h = cc
check_present-ok (cons (boolean _) xs) typed c h = cc
check_present-ok (cons (number _) xs) typed c h = cc
check_present-ok (cons (array _) xs) typed c h = cc
check_present-ok (cons (object _) xs) typed c h = cc

pub has_required-ok :
    (o : Option Value) (typed : Fields)
    → ((raw : Value) → o ≡ some raw → (xs : Items) × (raw ≡ array xs) × (check_names xs ≡ ok))
    → ((xs : Items) (name : Text) → o ≡ some (array xs) → ItemOf (string name) xs → Has typed name)
    → has_required o typed ≡ ok
unfolding has_required
has_required-ok none typed shape h = refl
has_required-ok (some raw) typed shape h =
    let (xs, e, c) = shape raw refl in
    rw e (check_present-ok xs typed c (λ name. h xs name (ap some e)))

pub check_declared-ok :
    (props typed : Fields)
    → ((name : Text) → Memᴰ name (names_of typed) → Has props name)
    → check_declared props typed ≡ ok
unfolding check_declared names_of
check_declared-ok props end h = refl
check_declared-ok props (field k v typed) h =
    >>-of_ok _ _ (require-of_true _ undeclared (is_some-of (get k props) (h k (Memᴰ.head refl))))
      (check_declared-ok props typed (λ name m. h name (Memᴰ.tail m)))

pub only_declared-ok :
    (o : Option Value) (props typed : Fields)
    → (o ≡ some (boolean false) → (name : Text) → Has typed name → Has props name)
    → only_declared o props typed ≡ ok
unfolding only_declared
only_declared-ok (some (boolean false)) props typed h =
    check_declared-ok props typed (λ name m. h refl name (Has-of_mem name typed m))
only_declared-ok (some (boolean true)) props typed h = refl
only_declared-ok none props typed h = refl
only_declared-ok (some null) props typed h = refl
only_declared-ok (some (number _)) props typed h = refl
only_declared-ok (some (string _)) props typed h = refl
only_declared-ok (some (array _)) props typed h = refl
only_declared-ok (some (object _)) props typed h = refl

pub check_child-ok :
    (check : Fields → Value → Check) (o p : Option Value) (sub : Fields)
    → o ≡ some (object sub)
    → ((child : Value) → p ≡ some child → check sub child ≡ ok)
    → check_child check o p ≡ ok
check_child-ok check o none sub e h = refl
check_child-ok check o (some child) sub e h = rw e (h child refl)

pub check_children-ok :
    (check : Fields → Value → Check) (props typed : Fields) (names : List Text)
    → ((name : Text)
        → Memᴰ name names
        → (sub : Fields) × (get name props ≡ some (object sub))
          × ((child : Value) → get name typed ≡ some child → check sub child ≡ ok))
    → check_children check props typed names ≡ ok
unfolding check_children
check_children-ok check props typed [] h = refl
check_children-ok check props typed (k ∷ names) h =
    let (sub, e, accepts) = h k (Memᴰ.head refl) in
    >>-of_ok _ _ (check_child-ok check (get k props) (get k typed) sub e accepts)
      (check_children-ok check props typed names (λ name m. h name (Memᴰ.tail m)))

pub check_all-ok :
    (check : Value → Check) (xs : Items)
    → ((x : Value) → ItemOf x xs → check x ≡ ok)
    → check_all check xs ≡ ok
unfolding check_all
check_all-ok check nil h = refl
check_all-ok check (cons x xs) h =
    >>-of_ok _ _ (h x here) (check_all-ok check xs (λ y m. h y (there m)))

pub each_item-ok :
    (check : Fields → Value → Check) (o : Option Value) (xs : Items)
    → ((sub : Fields) (x : Value) → o ≡ some (object sub) → ItemOf x xs → check sub x ≡ ok)
    → each_item check o xs ≡ ok
unfolding each_item
each_item-ok check (some (object sub)) xs h = check_all-ok (check sub) xs (λ x. h sub x refl)
each_item-ok check none xs h = refl
each_item-ok check (some null) xs h = refl
each_item-ok check (some (boolean _)) xs h = refl
each_item-ok check (some (number _)) xs h = refl
each_item-ok check (some (string _)) xs h = refl
each_item-ok check (some (array _)) xs h = refl

module _ (F : Floats) where
  pub at_least-ok :
      (o : Option Value) (n : ℕ) (c : Complaint)
      → ((b : Text) → o ≡ some (number b) → F.is_float b ≡ true → F.whole b ≤ℤ pos n)
      → at_least F (number_in F o) n c ≡ ok
  unfolding at_least number_in
  at_least-ok (some (number b)) n c h = elim (Bool-cases (F.is_float b)) [
    | inl e ↦ rw e (require-of_true _ c (int_ltb-of_≤ℤ (pos n) (F.whole b) (h b refl e)))
    | inr e ↦ rw e refl
  ]
  at_least-ok none n c h = refl
  at_least-ok (some null) n c h = refl
  at_least-ok (some (boolean _)) n c h = refl
  at_least-ok (some (string _)) n c h = refl
  at_least-ok (some (array _)) n c h = refl
  at_least-ok (some (object _)) n c h = refl

  pub at_most-ok :
      (o : Option Value) (n : ℕ) (c : Complaint)
      → ((b : Text) → o ≡ some (number b) → F.is_float b ≡ true → pos n ≤ℤ F.whole b)
      → at_most F (number_in F o) n c ≡ ok
  unfolding at_most number_in
  at_most-ok (some (number b)) n c h = elim (Bool-cases (F.is_float b)) [
    | inl e ↦ rw e (require-of_true _ c (int_ltb-of_≤ℤ (F.whole b) (pos n) (h b refl e)))
    | inr e ↦ rw e refl
  ]
  at_most-ok none n c h = refl
  at_most-ok (some null) n c h = refl
  at_most-ok (some (boolean _)) n c h = refl
  at_most-ok (some (string _)) n c h = refl
  at_most-ok (some (array _)) n c h = refl
  at_most-ok (some (object _)) n c h = refl

  pub not_below-ok :
      (o : Option Value) (n : Text)
      → ((b : Text) → o ≡ some (number b) → F.is_float b ≡ true → F.less n b ≡ false)
      → not_below F (number_in F o) n ≡ ok
  unfolding not_below number_in
  not_below-ok (some (number b)) n h = elim (Bool-cases (F.is_float b)) [
    | inl e ↦ rw e (require-of_true _ too_small (ap not (h b refl e)))
    | inr e ↦ rw e refl
  ]
  not_below-ok none n h = refl
  not_below-ok (some null) n h = refl
  not_below-ok (some (boolean _)) n h = refl
  not_below-ok (some (string _)) n h = refl
  not_below-ok (some (array _)) n h = refl
  not_below-ok (some (object _)) n h = refl

  pub not_above-ok :
      (o : Option Value) (n : Text)
      → ((b : Text) → o ≡ some (number b) → F.is_float b ≡ true → F.less b n ≡ false)
      → not_above F (number_in F o) n ≡ ok
  unfolding not_above number_in
  not_above-ok (some (number b)) n h = elim (Bool-cases (F.is_float b)) [
    | inl e ↦ rw e (require-of_true _ too_big (ap not (h b refl e)))
    | inr e ↦ rw e refl
  ]
  not_above-ok none n h = refl
  not_above-ok (some null) n h = refl
  not_above-ok (some (boolean _)) n h = refl
  not_above-ok (some (string _)) n h = refl
  not_above-ok (some (array _)) n h = refl
  not_above-ok (some (object _)) n h = refl
