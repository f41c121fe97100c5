-- ===== src/Inlet/Supported.antt =====
-- The keywords of a schema that CheckSchema (internal/inlet/schema.go) accepts.
use mathlib.Core.Path.{subst}
use cogitorium.Inlet.Enforced.{Known, Tells, keywords_known, types_tell}
use cogitorium.Prelude.{
  ℕ, sym, ap, ◌∙◌, false, refl, any, List, [], ◌∷◌, All, Memᴰ, ◌⊎◌, zero, suc, ◌≡◌, true, some,
  Text, text_eq, Bool-cases, inl, inr,
}
use cogitorium.Inlet.Keyword
use cogitorium.Inlet.Json.{
  Value, null, boolean, number, array, string, object, Fields, end, field, get, depth_fields,
}
use cogitorium.Inlet.Schema.{
  ok, is_keyword, is_type, keyword_unsupported, type_unknown, supported_keywords, supported_types,
  check_keywords, check_type, check_parts, check_node, check_schema,
}
use cogitorium.Inlet.Checks.{>>-ok, require-ok}
use cogitorium.Inlet.Accepted.{Accepted-of_ok}
use cogitorium.Prelude.{text_eq→eq}

-- `sub` is the schema itself, or one that it holds under a field's name or for its items.
pub data Within (sub : Fields) : Fields → Type 0 where
  itself : Within sub sub
  under_property :
      {s props next : Fields} (name : Text)
      → get Keyword.properties s ≡ some (object props)
      → get name props ≡ some (object next)
      → Within sub next
      → Within sub s
  under_items :
      {s next : Fields} → get Keyword.items s ≡ some (object next) → Within sub next → Within sub s

object_eq : {fs gs : Fields} → object fs ≡ object gs → fs ≡ gs
object_eq e = cc

Within-accepted :
    {sub : Fields} (g : ℕ) (s : Fields)
    → check_node g s ≡ ok
    → Within sub s
    → (h : ℕ) × (check_node h sub ≡ ok)
Within-accepted g s k itself = (g, k)
Within-accepted (suc g) s k (under_property {props = props} {next = next} name e p w) =
    let (sub', q, c) = (Accepted-of_ok g s k).each_property props name (object next) e p in
    Within-accepted g next (rw (object_eq q) c) w
Within-accepted (suc g) s k (under_items {next = next} e w) =
    Within-accepted g next ((Accepted-of_ok g s k).item_schema next e) w
Within-accepted zero s k w = unfold check_node in cc

keyword_known :
    (s : Fields) (k : Text) {v : Value}
    → check_keywords s ≡ ok
    → get k s ≡ some v
    → is_keyword k ≡ true
unfolding check_keywords get
keyword_known end k h e = cc
keyword_known (field j w s) k h e =
    let (a, b) = >>-ok _ _ h in
    elim (Bool-cases (text_eq j k)) [
      | inl q ↦ rw (← text_eq→eq j k q) (require-ok _ keyword_unsupported a)
      | inr q ↦ keyword_known s k b (rw q at e)
    ]

All-get {ℓ κ} : {A : Type ℓ} (P : A → Type κ) (xs : List A) {x : A} → All P xs → Memᴰ x xs → P x
All-get P [] h m = elim m [ ]
All-get P (y ∷ xs) h (Memᴰ.head e) = subst P (sym e) h.0
All-get P (y ∷ xs) h (Memᴰ.tail m) = All-get P xs h.1 m

mem-any_text : (k : Text) (xs : List Text) → any (text_eq k) xs ≡ true → Memᴰ k xs
mem-any_text k [] h = cc
mem-any_text k (x ∷ xs) h = elim (Bool-cases (text_eq k x)) [
  | inl e ↦ Memᴰ.head (text_eq→eq k x e)
  | inr e ↦ Memᴰ.tail (mem-any_text k xs (rw e at h))
]

known_of : (k : Text) → is_keyword k ≡ true → Known k
unfolding is_keyword
known_of k h = All-get Known supported_keywords keywords_known (mem-any_text k supported_keywords h)

Tells-of : (t : Text) → is_type t ≡ true → Tells t
unfolding is_type
Tells-of t h = All-get Tells supported_types types_tell (mem-any_text t supported_types h)

type-Tells : (v : Value) → check_type (some v) ≡ ok → (t : Text) × (v ≡ string t) × Tells t
unfolding check_type
type-Tells (string t) h = (t, refl, Tells-of t (require-ok (is_type t) type_unknown h))
type-Tells null h = cc
type-Tells (boolean b) h = cc
type-Tells (number n) h = cc
type-Tells (array xs) h = cc
type-Tells (object fs) h = cc

parts_known :
    (g : ℕ) (s : Fields) (k : Text) {v : Value}
    → check_node g s ≡ ok
    → get k s ≡ some v
    → (is_keyword k ≡ true) × (check_type (get Keyword.type s) ≡ ok)
unfolding check_node check_parts
parts_known zero s k h e = cc
parts_known (suc g) s k h e =
    let (a, r) = >>-ok _ _ h in let (b, _) = >>-ok _ _ r in (keyword_known s k a e, b)

-- In a schema that CheckSchema accepts, every keyword at every depth is `$schema`, `title` or
-- `description`, or is enforced: it makes some schema that is accepted refuse a value that passes
-- without it. What stands under `type` is the name of a type that some value has and another has
-- not.
pub accepted_is_enforced :
    (s sub : Fields) (k : Text) (v : Value)
    → check_schema s ≡ ok
    → Within sub s
    → get k sub ≡ some v
    → Known k × ((text_eq k Keyword.type ≡ false) ⊎ ((t : Text) × (v ≡ string t) × Tells t))
unfolding check_schema
accepted_is_enforced s sub k v h w e =
    let (g, c) = Within-accepted (suc (depth_fields s)) s h w in
    let (known, typed) = parts_known g sub k c e in
    (
      known_of k known,
      elim (Bool-cases (text_eq k Keyword.type)) [
        | inr q ↦ inl q
        | inl q ↦
            let there : get Keyword.type sub ≡ some v =
              ap (λ j. get j sub) (sym (text_eq→eq k Keyword.type q)) ∙ e in
            inr (type-Tells v (ap check_type (sym there) ∙ typed))
      ],
    )
