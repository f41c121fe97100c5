-- ===== src/Secrets/Apart.antt =====
-- The streams of a Tap (internal/secrets/redact.go), one by one: what each is given and gives.
use cogitorium.Prelude.{
  ◌≡◌, refl, sym, ap, ◌∙◌, true, false, Text, List, [], ◌∷◌, ◌++◌, text_eq, text_ltb, if◌then◌else◌,
  sort_by, insert_by, Bool-cases, inl, inr, arith, text_eq→eq,
}
use cogitorium.Secrets.Redact.{Redactor, flush}
use cogitorium.Secrets.Across.{append_assoc, append_nil}
use cogitorium.Secrets.Tap.{Carried, Call, before, call_with, flush_each, flush_all}

-- All that the sink is given for one stream, put together.
unfoldable pub text_to : Text → List Call → Text
text_to n [] = []
text_to n (e ∷ es) =
    let rest = text_to n es in if text_eq e.to n then e.chunk_text ++ rest else rest

-- The chunks of one stream, in the order they came.
unfoldable pub chunks_to : Text → List Call → List Text
chunks_to n [] = []
chunks_to n (e ∷ es) =
    let rest = chunks_to n es in if text_eq e.to n then e.chunk_text ∷ rest else rest

text_to-append :
    (n : Text) (es fs : List Call) → text_to n (es ++ fs) ≡ text_to n es ++ text_to n fs
unfolding text_to
text_to-append n [] fs = refl
text_to-append n (e ∷ es) fs =
    let rest = text_to-append n es fs in
    elim (Bool-cases (text_eq e.to n)) [
      | inl q ↦ rw (q, rest, ← append_assoc e.chunk_text (text_to n es) (text_to n fs)) refl
      | inr q ↦ rw q rest
    ]

-- What one call adds for a stream.
abbrev pub part_for : Text → Text → Text → Text
part_for n m out = if text_eq m n then out else []

text_to-call_with : (n m out : Text) → text_to n (call_with m out) ≡ part_for n m out
unfolding text_to call_with
text_to-call_with n m [] = elim (Bool-cases (text_eq m n)) [ inl q ↦ rw q refl | inr q ↦ rw q refl ]
text_to-call_with n m (c ∷ out) = elim (Bool-cases (text_eq m n)) [
  | inl q ↦ rw q (append_nil (c ∷ out))
  | inr q ↦ rw q refl
]

pub text_to-call_then :
    (n m out : Text) (es : List Call)
    → text_to n (call_with m out ++ es) ≡ part_for n m out ++ text_to n es
text_to-call_then n m out es =
    text_to-append n (call_with m out) es ∙ ap (λ s. s ++ text_to n es) (text_to-call_with n m out)

pub text_to-flush_cons :
    (n : Text) (r : Redactor) (s : Carried) (ss : List Carried)
    → text_to n (flush_each r (s ∷ ss))
      ≡ part_for n s.name (flush r s.carry) ++ text_to n (flush_each r ss)
unfolding flush_each
text_to-flush_cons n r s ss = text_to-call_then n s.name (flush r s.carry) (flush_each r ss)

text_ltb_irrefl : (s : Text) → text_ltb s s ≡ false
unfolding text_ltb
text_ltb_irrefl [] = refl
text_ltb_irrefl (c ∷ s) = ground (arith, text_ltb_irrefl s)

-- Two names of which one comes before the other are not both the stream's.
parts_swap :
    (n m k a b c : Text)
    → text_ltb m k ≡ true
    → part_for n m a ++ (part_for n k b ++ c) ≡ part_for n k b ++ (part_for n m a ++ c)
parts_swap n m k a b c h = elim (Bool-cases (text_eq m n)) [
  | inr q ↦ rw q refl
  | inl q ↦ elim (Bool-cases (text_eq k n)) [
    | inr p ↦ rw p refl
    | inl p ↦
        let e = text_eq→eq m n q ∙ sym (text_eq→eq k n p) in
        absurd (cc (h, text_ltb_irrefl k, ap (λ t. text_ltb t k) e))
  ]
]

text_to-flush_insert :
    (n : Text) (r : Redactor) (s : Carried) (ss : List Carried)
    → text_to n (flush_each r (insert_by before s ss)) ≡ text_to n (flush_each r (s ∷ ss))
text_to-flush_insert n r s [] = refl
text_to-flush_insert n r s (t ∷ ss) =
    let rest = text_to-flush_insert n r s ss in
    elim (Bool-cases (text_ltb t.name s.name)) [
      | inr q ↦ rw q refl
      | inl q ↦
          rw
            (
              q,
              text_to-flush_cons n r t (insert_by before s ss),
              rest,
              text_to-flush_cons n r s ss,
              text_to-flush_cons n r s (t ∷ ss),
              text_to-flush_cons n r t ss,
            )
            (parts_swap n t.name s.name (flush r t.carry) (flush r s.carry)
              (text_to n (flush_each r ss)) q)
    ]

-- The order of the names does not matter to one stream.
pub text_to-flush_all :
    (n : Text) (r : Redactor) (ss : List Carried)
    → text_to n (flush_all r ss) ≡ text_to n (flush_each r ss)
unfolding flush_all
text_to-flush_all n r [] = refl
text_to-flush_all n r (s ∷ ss) =
    text_to-flush_insert n r s (sort_by before ss)
    ∙ text_to-flush_cons n r s (sort_by before ss)
    ∙ ap (λ t. part_for n s.name (flush r s.carry) ++ t) (text_to-flush_all n r ss)
    ∙ sym (text_to-flush_cons n r s ss)
