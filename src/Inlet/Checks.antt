-- ===== src/Inlet/Checks.antt =====
-- What an accepted sequence of checks says of each of them, and lookups in fields.
use cogitorium.Prelude.{
  mem-sort_by, mem_of_mem-sort_by, ◌≤◌, ◌≡◌, refl, sym, ap, Bool, true, false, Option, none, some,
  arith, inl, inr, ◌&&◌, &&-true, Bool-cases, Text, text_eq, text_eq→eq, text_eq_refl, text_ltb,
  Memᴰ,
}
use cogitorium.Inlet.Json.{
  Value, Items, nil, cons, Fields, end, field, get, names_of, sorted_names, depth, depth_items,
  depth_fields, value_eq, items_eq, fields_eq, null, boolean, number, string, array, object,
}
use cogitorium.Inlet.Schema.{Complaint, Check, ok, refused, ◌>>◌, require}
use cogitorium.Inlet.Validate.{is_some}
use cogitorium.Inlet.Fits.{Has, ItemOf, here, there}

pub >>-ok : (a b : Check) → (a >> b) ≡ ok → (a ≡ ok) × (b ≡ ok)
>>-ok ok b h = (refl, h)
>>-ok (refused c) b h = cc

pub >>-of_ok : (a b : Check) → a ≡ ok → b ≡ ok → (a >> b) ≡ ok
>>-of_ok ok b h k = k
>>-of_ok (refused c) b h k = cc

pub require-ok : (b : Bool) (c : Complaint) → require b c ≡ ok → b ≡ true
require-ok true c h = refl
require-ok false c h = cc

pub Has-of_is_some : (o : Option Value) → is_some o ≡ true → (v : Value) × (o ≡ some v)
Has-of_is_some none h = cc
Has-of_is_some (some v) h = (v, refl)

-- A field that is there is one of the names.
pub mem-names_of :
    (name : Text) (fs : Fields) {v : Value} → get name fs ≡ some v → Memᴰ name (names_of fs)
unfolding get names_of
mem-names_of name end h = cc
mem-names_of name (field k w fs) h = elim (Bool-cases (text_eq k name)) [
  | inl e ↦ Memᴰ.head (sym (text_eq→eq k name e))
  | inr e ↦ Memᴰ.tail (mem-names_of name fs (rw e at h))
]

pub mem-sorted_names :
    (name : Text) (fs : Fields) {v : Value} → get name fs ≡ some v → Memᴰ name (sorted_names fs)
unfolding sorted_names
mem-sorted_names name fs h = mem-sort_by text_ltb (names_of fs) (mem-names_of name fs h)

pub Has-of_mem : (name : Text) (fs : Fields) → Memᴰ name (names_of fs) → Has fs name
unfolding get names_of
Has-of_mem name end m = elim m [ ]
Has-of_mem name (field k w fs) (Memᴰ.head e) = (w, rw (e, text_eq_refl k) refl)
Has-of_mem name (field k w fs) (Memᴰ.tail m) =
    let (v, h) = Has-of_mem name fs m in
    elim (Bool-cases (text_eq k name)) [ inl e ↦ (w, rw e refl) | inr e ↦ (v, rw e h) ]

pub Has-of_sorted : (name : Text) (fs : Fields) → Memᴰ name (sorted_names fs) → Has fs name
unfolding sorted_names
Has-of_sorted name fs m = Has-of_mem name fs (mem_of_mem-sort_by text_ltb (names_of fs) m)

-- A field is no deeper than its object, and an item no deeper than its array.
pub depth-get :
    (name : Text) (fs : Fields) {v : Value} → get name fs ≡ some v → depth v ≤ depth_fields fs
unfolding get depth
depth-get name end h = cc
depth-get name (field k w fs) {v} h = elim (Bool-cases (text_eq k name)) [
  | inl e ↦ let q : w ≡ v = ground arith in ground (arith, ap depth q)
  | inr e ↦ ground (arith, depth-get name fs {v = v} (rw e at h))
]

pub depth-ItemOf : {x : Value} (xs : Items) → ItemOf x xs → depth x ≤ depth_items xs
unfolding depth
depth-ItemOf nil m = elim m [ ]
depth-ItemOf (cons x xs) here = ground arith
depth-ItemOf (cons y xs) (there m) = ground (arith, depth-ItemOf xs m)

-- The comparison of values decides equality.
mutual
  unfolding value_eq

  pub value_eq→eq : (v w : Value) → value_eq v w ≡ true → v ≡ w
  value_eq→eq null null h = refl
  value_eq→eq (boolean true) (boolean true) h = refl
  value_eq→eq (boolean false) (boolean false) h = refl
  value_eq→eq (number m) (number n) h = ap number (text_eq→eq m n h)
  value_eq→eq (string m) (string n) h = ap string (text_eq→eq m n h)
  value_eq→eq (array xs) (array ys) h = ap array (items_eq→eq xs ys h)
  value_eq→eq (object fs) (object gs) h = ap object (fields_eq→eq fs gs h)
  value_eq→eq _ _ h = cc

  pub items_eq→eq : (xs ys : Items) → items_eq xs ys ≡ true → xs ≡ ys
  items_eq→eq nil nil h = refl
  items_eq→eq (cons x xs) (cons y ys) h =
      let (a, b) = &&-true (value_eq x y) (items_eq xs ys) h in
      cc (value_eq→eq x y a, items_eq→eq xs ys b)
  items_eq→eq _ _ h = cc

  pub fields_eq→eq : (fs gs : Fields) → fields_eq fs gs ≡ true → fs ≡ gs
  fields_eq→eq end end h = refl
  fields_eq→eq (field j v fs) (field k w gs) h =
      let (a, r) = &&-true (text_eq j k) (value_eq v w && fields_eq fs gs) h in
      let (b, c) = &&-true (value_eq v w) (fields_eq fs gs) r in
      cc (text_eq→eq j k a, value_eq→eq v w b, fields_eq→eq fs gs c)
  fields_eq→eq _ _ h = cc

mutual
  unfolding value_eq

  pub value_eq_refl : (v : Value) → value_eq v v ≡ true
  value_eq_refl null = refl
  value_eq_refl (boolean true) = refl
  value_eq_refl (boolean false) = refl
  value_eq_refl (number m) = text_eq_refl m
  value_eq_refl (string m) = text_eq_refl m
  value_eq_refl (array xs) = items_eq_refl xs
  value_eq_refl (object fs) = fields_eq_refl fs

  pub items_eq_refl : (xs : Items) → items_eq xs xs ≡ true
  items_eq_refl nil = refl
  items_eq_refl (cons x xs) = ground (arith, value_eq_refl x, items_eq_refl xs)

  pub fields_eq_refl : (fs : Fields) → fields_eq fs fs ≡ true
  fields_eq_refl end = refl
  fields_eq_refl (field k v fs) = ground (arith, text_eq_refl k, value_eq_refl v, fields_eq_refl fs)
