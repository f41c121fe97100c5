-- ===== src/Inlet/Accepted.antt =====
-- What checkNode promises of a schema that it accepts: the parts that validate reads have the
-- shape that it takes them to have, at every depth.
use cogitorium.Prelude.{ℕ, suc, ◌≡◌, refl, Option, some, Text, text_eq, Bool-cases, inl, inr}
use cogitorium.Inlet.Keyword
use cogitorium.Inlet.Json.{
  Value, null, boolean, number, string, array, object, Items, Fields, end, field, get,
}
use cogitorium.Inlet.Schema.{
  Check, ok, check_each, check_enum, check_names, check_required, check_properties, check_items,
  check_parts, check_node,
}
use cogitorium.Inlet.Checks.{>>-ok}

pub record Accepted (g : ℕ) (s : Fields) : Type 0 where
  pub enumeration : (raw : Value) → get Keyword.enum s ≡ some raw → (xs : Items) × (raw ≡ array xs)
  pub names :
      (raw : Value)
      → get Keyword.required s ≡ some raw
      → (xs : Items) × (raw ≡ array xs) × (check_names xs ≡ ok)
  pub each_property :
      (props : Fields) (name : Text) (raw : Value)
      → get Keyword.properties s ≡ some (object props)
      → get name props ≡ some raw
      → (sub : Fields) × (raw ≡ object sub) × (check_node g sub ≡ ok)
  pub item_schema : (sub : Fields) → get Keyword.items s ≡ some (object sub) → check_node g sub ≡ ok

array_in_enum : (raw : Value) → check_enum (some raw) ≡ ok → (xs : Items) × (raw ≡ array xs)
unfolding check_enum
array_in_enum (array xs) h = (xs, refl)
array_in_enum _ h = cc

names_in_required :
    (raw : Value)
    → check_required (some raw) ≡ ok
    → (xs : Items) × (raw ≡ array xs) × (check_names xs ≡ ok)
unfolding check_required
names_in_required (array xs) h = (xs, refl, h)
names_in_required _ h = cc

enum_shape :
    (o : Option Value) (raw : Value)
    → check_enum o ≡ ok
    → o ≡ some raw
    → (xs : Items) × (raw ≡ array xs)
enum_shape o raw h e = array_in_enum raw (rw e at h)

required_shape :
    (o : Option Value) (raw : Value)
    → check_required o ≡ ok
    → o ≡ some raw
    → (xs : Items) × (raw ≡ array xs) × (check_names xs ≡ ok)
required_shape o raw h e = names_in_required raw (rw e at h)

module _ (check : Fields → Check) where
  each_shape :
      (props : Fields) (name : Text) (raw : Value)
      → check_each check props ≡ ok
      → get name props ≡ some raw
      → (sub : Fields) × (raw ≡ object sub) × (check sub ≡ ok)
  unfolding check_each get
  each_shape end name raw h e = cc
  each_shape (field k (object sub) fs) name raw h e = elim (Bool-cases (text_eq k name)) [
    | inl q ↦ let p : some (object sub) ≡ some raw = rw q at e in (sub, cc, (>>-ok _ _ h).0)
    | inr q ↦ each_shape fs name raw (>>-ok _ _ h).1 (rw q at e)
  ]
  each_shape (field k null fs) name raw h e = cc
  each_shape (field k (boolean _) fs) name raw h e = cc
  each_shape (field k (number _) fs) name raw h e = cc
  each_shape (field k (string _) fs) name raw h e = cc
  each_shape (field k (array _) fs) name raw h e = cc

  properties_shape :
      (o : Option Value) (props : Fields) (name : Text) (raw : Value)
      → check_properties check o ≡ ok
      → o ≡ some (object props)
      → get name props ≡ some raw
      → (sub : Fields) × (raw ≡ object sub) × (check sub ≡ ok)
  unfolding check_properties
  properties_shape o props name raw h e =
      let k : check_each check props ≡ ok = rw e at h in each_shape props name raw k

  items_shape :
      (o : Option Value) (sub : Fields)
      → check_items check o ≡ ok
      → o ≡ some (object sub)
      → check sub ≡ ok
  unfolding check_items
  items_shape o sub h e = rw e at h

pub Accepted-of_ok : (g : ℕ) (s : Fields) → check_node (suc g) s ≡ ok → Accepted g s
unfolding check_node check_parts
Accepted-of_ok g s h =
    let (_, r0) = >>-ok _ _ h in
    let (_, r1) = >>-ok _ _ r0 in
    let (enumeration, r2) = >>-ok _ _ r1 in
    let (properties, r3) = >>-ok _ _ r2 in
    let (required, r4) = >>-ok _ _ r3 in
    let (_, r5) = >>-ok _ _ r4 in
    let (items, _) = >>-ok _ _ r5 in
    record {
      enumeration = λ raw. enum_shape (get Keyword.enum s) raw enumeration;
      names = λ raw. required_shape (get Keyword.required s) raw required;
      each_property = λ props name raw e p.
          properties_shape (check_node g) (get Keyword.properties s) props name raw properties e p;
      item_schema = λ sub. items_shape (check_node g) (get Keyword.items s) sub items;
    }
