-- ===== src/Inlet/Json.antt =====
-- JSON values as encoding/json decodes them with UseNumber (internal/inlet/schema.go): a number
-- keeps its text, and the keys of an object are those of a Go map, each once.
use cogitorium.Prelude.{
  ℕ, suc, Bool, true, false, ◌&&◌, Option, none, some, List, [], ◌∷◌, leb, if◌then◌else◌, Text,
  text_eq, text_ltb, sort_by,
}

mutual
  pub data Value : Type 0 where
    null : Value
    boolean : Bool → Value
    number : Text → Value
    string : Text → Value
    array : Items → Value
    object : Fields → Value

  pub data Items : Type 0 where
    nil : Items
    cons : Value → Items → Items

  pub data Fields : Type 0 where
    end : Fields
    field : Text → Value → Fields → Fields

-- m[k], nothing where the key is missing
unfoldable pub get : Text → Fields → Option Value
get k end = none
get k (field j v fs) = let rest = get k fs in if text_eq j k then some v else rest

unfoldable pub item_count : Items → ℕ
item_count nil = 0
item_count (cons x xs) = suc (item_count xs)

-- anyKeys
unfoldable pub names_of : Fields → List Text
names_of end = []
names_of (field k v fs) = k ∷ names_of fs

-- sortedKeys
unfoldable pub sorted_names : Fields → List Text
unfolding names_of text_ltb
sorted_names fs = sort_by text_ltb (names_of fs)

abbrev larger : ℕ → ℕ → ℕ
larger a b = if leb a b then b else a

-- How deep a value is nested.
unfoldable mutual
  pub depth : Value → ℕ
  depth null = 0
  depth (boolean b) = 0
  depth (number n) = 0
  depth (string s) = 0
  depth (array xs) = suc (depth_items xs)
  depth (object fs) = suc (depth_fields fs)

  pub depth_items : Items → ℕ
  depth_items nil = 0
  depth_items (cons x xs) = larger (depth x) (depth_items xs)

  pub depth_fields : Fields → ℕ
  depth_fields end = 0
  depth_fields (field k v fs) = larger (depth v) (depth_fields fs)

-- a field in its place in the order of the keys
unfoldable pub insert_field : Text → Value → Fields → Fields
unfolding text_ltb
insert_field k v end = field k v end
insert_field k v (field j w fs) =
    let rest = insert_field k v fs in
    if text_ltb j k then field j w rest else field k v (field j w fs)

-- json.Marshal writes the keys of an object in their order.
unfoldable mutual
  unfolding insert_field

  pub canonical : Value → Value
  canonical null = null
  canonical (boolean b) = boolean b
  canonical (number n) = number n
  canonical (string s) = string s
  canonical (array xs) = array (canonical_items xs)
  canonical (object fs) = object (canonical_fields fs)

  pub canonical_items : Items → Items
  canonical_items nil = nil
  canonical_items (cons x xs) = cons (canonical x) (canonical_items xs)

  pub canonical_fields : Fields → Fields
  canonical_fields end = end
  canonical_fields (field k v fs) = insert_field k (canonical v) (canonical_fields fs)

abbrev bool_eq : Bool → Bool → Bool
bool_eq true b = b
bool_eq false true = false
bool_eq false false = true

-- bytes.Equal of what json.Marshal writes
unfoldable mutual
  unfolding text_eq

  pub value_eq : Value → Value → Bool
  value_eq null null = true
  value_eq (boolean a) (boolean b) = bool_eq a b
  value_eq (number m) (number n) = text_eq m n
  value_eq (string s) (string t) = text_eq s t
  value_eq (array xs) (array ys) = items_eq xs ys
  value_eq (object fs) (object gs) = fields_eq fs gs
  value_eq _ _ = false

  pub items_eq : Items → Items → Bool
  items_eq nil nil = true
  items_eq (cons x xs) (cons y ys) = value_eq x y && items_eq xs ys
  items_eq _ _ = false

  pub fields_eq : Fields → Fields → Bool
  fields_eq end end = true
  fields_eq (field j v fs) (field k w gs) = text_eq j k && (value_eq v w && fields_eq fs gs)
  fields_eq _ _ = false
