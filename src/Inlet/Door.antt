-- ===== src/Inlet/Door.antt =====
-- What a delivered body and an answer must be to pass, from the text to the value.
use mathlib.Core.Logic.{◌↔◌}
use cogitorium.Prelude.{
  ap, ◌∙◌, [], ◌∷◌, ◌++◌, ◌⊎◌, all, ◌==◌, ==_iff, &&-true, ℕ, ◌≤◌, ◌≡◌, refl, Bool, true, false,
  Option, none, some, arith, inl, inr, Bool-cases, ltb, if◌then◌else◌, Text, is_empty, trim_space,
}
use cogitorium.Inlet.Json.{Value, Fields}
use cogitorium.Inlet.Schema.{
  Complaint, body_empty, body_too_large, Check, ok, refused, check_schema,
}
use cogitorium.Inlet.Validate.{Floats}
use cogitorium.Inlet.Body.{
  max_json_payload, byte_length, decode_object, checked_node, check_schema_text, one_document, more,
  is_json_space, validate_payload, validate_answer,
}
use cogitorium.Inlet.Fits.{Fits}
use cogitorium.Inlet.Complete.{validate_agrees}

node_of_checked :
    (o : Option Fields)
    → checked_node o ≡ ok
    → (node : Fields) × (o ≡ some node) × (check_schema node ≡ ok)
node_of_checked none h = cc
node_of_checked (some node) h = (node, refl, h)

-- A guard that refuses adds its condition to what is accepted.
when_not {ℓ} :
    {P : Type ℓ} (b : Bool) (c : Complaint) {r : Check}
    → (r ≡ ok) ↔ P
    → ((if b then refused c else r) ≡ ok) ↔ ((b ≡ false) × P)
when_not true c p = ((λ h. cc), λ (h, _). cc)
when_not false c p = ((λ h. (refl, p.0 h)), λ (_, h). p.1 h)

when_within {ℓ} :
    {P : Type ℓ} (limit n : ℕ) (c : Complaint) {r : Check}
    → (r ≡ ok) ↔ P
    → ((if ltb limit n then refused c else r) ≡ ok) ↔ ((n ≤ limit) × P)
when_within limit n c p = elim (Bool-cases (ltb limit n)) [
  | inl e ↦ rw e ((λ h. cc), λ (h, _). absurd (ground arith))
  | inr e ↦ rw e ((λ h. (ground arith, p.0 h)), λ (_, h). p.1 h)
]

-- Nothing but spaces follows, or a closing bracket or brace is the first thing that does.
pub data NoMore (s : Text) : Type 0 where
  blank : all is_json_space s ≡ true → NoMore s
  closing :
      (spaces : Text) (c : ℕ) (rest : Text)
      → s ≡ spaces ++ (c ∷ rest)
      → all is_json_space spaces ≡ true
      → (c ≡ b']') ⊎ (c ≡ b'}')
      → NoMore s

past_space : (c : ℕ) (s : Text) → is_json_space c ≡ true → NoMore s → NoMore (c ∷ s)
past_space c s h (blank e) = blank (rw (h, e) refl)
past_space c s h (closing spaces d rest e k b) =
    closing (c ∷ spaces) d rest (ap (λ t. c ∷ t) e) (rw (h, k) refl) b

closer_stops : (c : ℕ) (rest : Text) → (c ≡ b']') ⊎ (c ≡ b'}') → more (c ∷ rest) ≡ false
unfolding more
closer_stops c rest (inl e) = rw e refl
closer_stops c rest (inr e) = rw e refl

more-spaces : (spaces s : Text) → all is_json_space spaces ≡ true → more (spaces ++ s) ≡ more s
unfolding more
more-spaces [] s h = refl
more-spaces (c ∷ spaces) s h =
    let (a, b) = &&-true (is_json_space c) (all is_json_space spaces) h in
    rw a (more-spaces spaces s b)

NoMore-of : (s : Text) → more s ≡ false → NoMore s
unfolding more
NoMore-of [] h = blank refl
NoMore-of (c ∷ s) h = elim (Bool-cases (is_json_space c)) [
  | inl e ↦ past_space c s e (NoMore-of s (rw e at h))
  | inr e ↦ elim (Bool-cases (c == b']')) [
    | inl k ↦ closing [] c s refl refl (inl ((==_iff c b']').0 k))
    | inr k ↦ closing [] c s refl refl (inr ((==_iff c b'}').0 (ground (arith, h, e, k))))
  ]
]

blank_stops : (s : Text) → all is_json_space s ≡ true → more s ≡ false
unfolding more
blank_stops [] h = refl
blank_stops (c ∷ s) h =
    let (a, b) = &&-true (is_json_space c) (all is_json_space s) h in rw a (blank_stops s b)

more-NoMore : (s : Text) → (more s ≡ false) ↔ NoMore s
more-NoMore s = (
  NoMore-of s,
  λ n. elim n [
    | blank e ↦ blank_stops s e
    | closing spaces c rest e k b ↦ rw e (more-spaces spaces (c ∷ rest) k ∙ closer_stops c rest b)
  ],
)

module _ (F : Floats) (decode : Text → Option (Value × Text)) where
  -- The first value of the text fits the schema, and what the decoder leaves unread is blank or goes
  -- on with a closing bracket or brace.
  abbrev pub Delivers : Fields → Text → Type 0
  Delivers node text =
      (v : Value) × (rest : Text) × (decode text ≡ some (v, rest)) × NoMore rest × Fits F node v

  document_fits :
      (node : Fields) (schema text : Text) (o : Option (Value × Text))
      → decode_object decode schema ≡ some node
      → check_schema node ≡ ok
      → decode text ≡ o
      → (one_document F decode schema o ≡ ok) ↔ Delivers node text
  document_fits node schema text none e k q = ((λ h. cc), λ (v, r, p, _, _). cc)
  document_fits node schema text (some (v, rest)) e k q = elim (Bool-cases (more rest)) [
    | inl m ↦ rw m (
      (λ h. cc),
      λ (w, r, p, n, _).
          let same : r ≡ rest = ground arith in
          absurd (cc (m, (more-NoMore rest).1 (rw (← same) n))),
    )
    | inr m ↦
        rw (m, e)
          (
            (λ h. (v, rest, q, (more-NoMore rest).0 m, (validate_agrees F node v k).0 h)),
            λ (w, r, p, n, fit).
                let same : w ≡ v = ground arith in (validate_agrees F node v k).1 (rw (← same) fit),
          )
  ]

  -- A task whose schema CheckSchema accepted takes an answer if and only if the answer is not blank
  -- and begins with a JSON document that fits the schema, after which only spaces follow, or a
  -- closing bracket or brace before all else.
  pub validate_answer_takes :
      (schema answer : Text)
      → check_schema_text decode schema ≡ ok
      → (node : Fields) × (decode_object decode schema ≡ some node)
        × ((validate_answer F decode schema answer ≡ ok)
            ↔ ((is_empty (trim_space answer) ≡ false) × Delivers node answer))
  unfolding validate_answer check_schema_text
  validate_answer_takes schema answer h =
      let (node, e, k) = node_of_checked (decode_object decode schema) h in
      (
        node,
        e,
        when_not (is_empty (trim_space answer)) body_empty
            (document_fits node schema answer (decode answer) e k refl),
      )

  -- A task whose schema CheckSchema accepted takes a body if and only if the body is no longer than
  -- the limit, is not blank, and begins with a JSON document that fits the schema, after which only
  -- spaces follow, or a closing bracket or brace before all else.
  pub validate_payload_takes :
      (schema body : Text)
      → check_schema_text decode schema ≡ ok
      → (node : Fields) × (decode_object decode schema ≡ some node)
        × ((validate_payload F decode schema body ≡ ok) ↔ (
            (byte_length body ≤ max_json_payload)
            × ((is_empty (trim_space body) ≡ false) × Delivers node body)))
  unfolding validate_payload check_schema_text
  validate_payload_takes schema body h =
      let (node, e, k) = node_of_checked (decode_object decode schema) h in
      (
        node,
        e,
        when_within max_json_payload (byte_length body) body_too_large (
            when_not (is_empty (trim_space body)) body_empty
              (document_fits node schema body (decode body) e k refl)),
      )
