-- ===== src/Inlet/Refusals.antt =====
-- What each part of validate says of a value that it does not refuse.
use cogitorium.Prelude.{
  ℕ, ◌≡◌, refl, Bool, true, false, not, Option, none, some, List, [], ◌∷◌, arith, inl, inr,
  Bool-cases, text_eq, text_eq→eq, Text, Memᴰ, ℤ, pos, negsuc,
}
use cogitorium.Inlet.Keyword
use cogitorium.Inlet.Json.{
  Value, null, boolean, number, string, array, object, Items, nil, cons, Fields, end, field, get,
}
use cogitorium.Inlet.Schema.{
  Complaint, missing, undeclared, not_comparable, too_small, too_big, Check, ok,
}
use cogitorium.Inlet.Validate.{
  Floats, int_ltb, of_type, of_enum, fields_of, check_present, has_required, check_declared,
  only_declared, check_child, check_children, check_all, each_item, number_in, at_least, at_most,
  not_below, not_above, check_number,
}
use cogitorium.Inlet.Fits.{◌≤ℤ◌, HasType, ItemOf, here, there, Among, Has, CountFits, NumberFits}
use cogitorium.Inlet.Checks.{>>-ok, require-ok, Has-of_is_some}
use cogitorium.Inlet.Types.{HasType-of_matches, Among-of_in_enum}

pub not-true : (b : Bool) → not b ≡ true → b ≡ false
not-true b h = ground arith

pub ≤ℤ-of_int_ltb : (a b : ℤ) → int_ltb a b ≡ false → b ≤ℤ a
unfolding int_ltb
≤ℤ-of_int_ltb (pos a) (pos b) h = ground arith
≤ℤ-of_int_ltb (pos a) (negsuc b) h = tt
≤ℤ-of_int_ltb (negsuc a) (pos b) h = cc
≤ℤ-of_int_ltb (negsuc a) (negsuc b) h = ground arith

pub of_type-Has :
    (o : Option Value) (v : Value) (t : Text) → o ≡ some (string t) → of_type o v ≡ ok → HasType t v
unfolding of_type
of_type-Has o v t e h =
    let k : of_type (some (string t)) v ≡ ok = rw e at h in
    HasType-of_matches t v (require-ok _ _ k)

pub of_enum-Among :
    (o : Option Value) (v : Value) (xs : Items)
    → o ≡ some (array xs)
    → of_enum o v ≡ ok
    → Among v xs
unfolding of_enum
of_enum-Among o v xs e h =
    let k : of_enum (some (array xs)) v ≡ ok = rw e at h in Among-of_in_enum v xs (require-ok _ _ k)

pub check_present-Has :
    (xs : Items) (typed : Fields) (name : Text)
    → check_present xs typed ≡ ok
    → ItemOf (string name) xs
    → Has typed name
unfolding check_present
check_present-Has nil typed name h m = elim m [ ]
check_present-Has (cons _ xs) typed name h here =
    Has-of_is_some (get name typed) (require-ok _ missing (>>-ok _ _ h).0)
check_present-Has (cons _ xs) typed name h (there m) =
    check_present-Has xs typed name (>>-ok _ _ h).1 m

pub has_required-Has :
    (o : Option Value) (typed : Fields) (xs : Items) (name : Text)
    → o ≡ some (array xs)
    → has_required o typed ≡ ok
    → ItemOf (string name) xs
    → Has typed name
unfolding has_required
has_required-Has o typed xs name e h m =
    let k : has_required (some (array xs)) typed ≡ ok = rw e at h in
    check_present-Has xs typed name k m

pub check_declared-Has :
    (props typed : Fields) (name : Text) {child : Value}
    → check_declared props typed ≡ ok
    → get name typed ≡ some child
    → Has props name
unfolding check_declared get
check_declared-Has props end name h e = cc
check_declared-Has props (field k v typed) name h e =
    let (a, b) = >>-ok _ _ h in
    elim (Bool-cases (text_eq k name)) [
      | inl q ↦
          rw (← text_eq→eq k name q) (Has-of_is_some (get k props) (require-ok _ undeclared a))
      | inr q ↦ check_declared-Has props typed name b (rw q at e)
    ]

pub only_declared-Has :
    (o : Option Value) (props typed : Fields) (name : Text) {child : Value}
    → o ≡ some (boolean false)
    → only_declared o props typed ≡ ok
    → get name typed ≡ some child
    → Has props name
unfolding only_declared
only_declared-Has o props typed name e h m =
    let k : only_declared (some (boolean false)) props typed ≡ ok = rw e at h in
    check_declared-Has props typed name k m

pub Has-fields_of :
    (o : Option Value) (name : Text)
    → Has (fields_of o) name
    → (props : Fields) × (o ≡ some (object props)) × Has props name
unfolding get
Has-fields_of (some (object props)) name h = (props, refl, h)
Has-fields_of none name (v, h) = cc
Has-fields_of (some null) name (v, h) = cc
Has-fields_of (some (boolean _)) name (v, h) = cc
Has-fields_of (some (number _)) name (v, h) = cc
Has-fields_of (some (string _)) name (v, h) = cc
Has-fields_of (some (array _)) name (v, h) = cc

module _ {ℓ} (P : Fields → Value → Type ℓ) (check : Fields → Value → Check)
    (sound : (s : Fields) (v : Value) → check s v ≡ ok → P s v) where
  pub check_children-sound :
      (props typed sub : Fields) (names : List Text) {name : Text} {child : Value}
      → check_children check props typed names ≡ ok
      → Memᴰ name names
      → get name props ≡ some (object sub)
      → get name typed ≡ some child
      → P sub child
  unfolding check_children
  check_children-sound props typed sub [] h m p e = elim m [ ]
  check_children-sound props typed sub (k ∷ names) {name} {child} h (Memᴰ.head q) p e =
      let a : check_child check (get k props) (get k typed) ≡ ok = (>>-ok _ _ h).0 in
      sound sub child (rw (← q, p, e) at a)
  check_children-sound props typed sub (k ∷ names) h (Memᴰ.tail m) p e =
      check_children-sound props typed sub names (>>-ok _ _ h).1 m p e

  pub check_all-sound :
      (sub : Fields) (xs : Items) {x : Value}
      → check_all (check sub) xs ≡ ok
      → ItemOf x xs
      → P sub x
  unfolding check_all
  check_all-sound sub nil h m = elim m [ ]
  check_all-sound sub (cons x xs) h here = sound sub x (>>-ok _ _ h).0
  check_all-sound sub (cons y xs) h (there m) = check_all-sound sub xs (>>-ok _ _ h).1 m

  pub each_item-sound :
      (o : Option Value) (sub : Fields) (xs : Items) {x : Value}
      → o ≡ some (object sub)
      → each_item check o xs ≡ ok
      → ItemOf x xs
      → P sub x
  unfolding each_item
  each_item-sound o sub xs e h m =
      let k : each_item check (some (object sub)) xs ≡ ok = rw e at h in check_all-sound sub xs k m

module _ (F : Floats) where
  pub number_in-some :
      (o : Option Value) (b : Text)
      → o ≡ some (number b)
      → F.is_float b ≡ true
      → number_in F o ≡ some b
  unfolding number_in
  number_in-some o b e h = rw (e, h) refl

  pub at_least-fits :
      (o : Option Value) (b : Text) (n : ℕ) (c : Complaint)
      → at_least F (number_in F o) n c ≡ ok
      → o ≡ some (number b)
      → F.is_float b ≡ true
      → F.whole b ≤ℤ pos n
  unfolding at_least
  at_least-fits o b n c h e f =
      let k : at_least F (some b) n c ≡ ok = rw (number_in-some o b e f) at h in
      ≤ℤ-of_int_ltb (pos n) (F.whole b) (not-true _ (require-ok _ c k))

  pub at_most-fits :
      (o : Option Value) (b : Text) (n : ℕ) (c : Complaint)
      → at_most F (number_in F o) n c ≡ ok
      → o ≡ some (number b)
      → F.is_float b ≡ true
      → pos n ≤ℤ F.whole b
  unfolding at_most
  at_most-fits o b n c h e f =
      let k : at_most F (some b) n c ≡ ok = rw (number_in-some o b e f) at h in
      ≤ℤ-of_int_ltb (F.whole b) (pos n) (not-true _ (require-ok _ c k))

  pub not_below-fits :
      (o : Option Value) (b n : Text)
      → not_below F (number_in F o) n ≡ ok
      → o ≡ some (number b)
      → F.is_float b ≡ true
      → F.less n b ≡ false
  unfolding not_below
  not_below-fits o b n h e f =
      let k : not_below F (some b) n ≡ ok = rw (number_in-some o b e f) at h in
      not-true _ (require-ok _ too_small k)

  pub not_above-fits :
      (o : Option Value) (b n : Text)
      → not_above F (number_in F o) n ≡ ok
      → o ≡ some (number b)
      → F.is_float b ≡ true
      → F.less b n ≡ false
  unfolding not_above
  not_above-fits o b n h e f =
      let k : not_above F (some b) n ≡ ok = rw (number_in-some o b e f) at h in
      not-true _ (require-ok _ too_big k)

  pub CountFits-of_ok :
      (s : Fields) (low high : Text) (n : ℕ) (c d : Complaint)
      → at_least F (number_in F (get low s)) n c ≡ ok
      → at_most F (number_in F (get high s)) n d ≡ ok
      → CountFits F s low high n
  CountFits-of_ok s low high n c d h k =
      (λ b. at_least-fits (get low s) b n c h, λ b. at_most-fits (get high s) b n d k)

  pub NumberFits-of_ok : (s : Fields) (n : Text) → check_number F s n ≡ ok → NumberFits F s n
  unfolding check_number
  NumberFits-of_ok s n h =
      let (a, r) = >>-ok _ _ h in
      let (b, c) = >>-ok _ _ r in
      record {
        comparable = require-ok _ not_comparable a;
        above = λ m. not_below-fits (get Keyword.minimum s) m n b;
        below = λ m. not_above-fits (get Keyword.maximum s) m n c;
      }
