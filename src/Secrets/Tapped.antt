-- ===== src/Secrets/Tapped.antt =====
-- One stream of a Tap (internal/secrets/redact.go) beside the others.
use cogitorium.Prelude.{
  ◌≡◌, refl, sym, ap, ◌∙◌, Bool, true, false, not, ◌&&◌, Text, List, [], ◌∷◌, ◌++◌, text_eq,
  Bool-cases, inl, inr, all, text_eq→eq, text_eq_refl, &&-true,
}
use cogitorium.Secrets.Redact.{Redactor, is_active, chunk, flush, stream}
use cogitorium.Secrets.Across.{append_nil}
use cogitorium.Secrets.Stream.{replace-nothing, redact-values}
use cogitorium.Secrets.Tap.{
  Carried, Call, carry_of, set_carry, wrapped, flush_each, wrap_all, tap, call_with,
}
use cogitorium.Secrets.Apart.{
  text_to, chunks_to, text_to-call_then, text_to-flush_cons, text_to-flush_all,
}

abbrev fresh : Text → List Carried → Bool
fresh n ss = all (λ s. not (text_eq s.name n)) ss

-- No name is carried for twice.
abbrev distinct : List Carried → Bool
distinct [] = true
distinct (s ∷ ss) = let rest = distinct ss in fresh s.name ss && rest

text_eq-other : (m n : Text) → text_eq m n ≡ false → text_eq n m ≡ false
text_eq-other m n h = elim (Bool-cases (text_eq n m)) [
  | inr e ↦ e
  | inl e ↦ absurd (cc (h, text_eq_refl n, ap (λ t. text_eq t n) (text_eq→eq n m e)))
]

fresh-set_carry :
    (m n c : Text) (ss : List Carried)
    → text_eq n m ≡ false
    → fresh m ss ≡ true
    → fresh m (set_carry n c ss) ≡ true
unfolding set_carry
fresh-set_carry m n c [] h k = rw h refl
fresh-set_carry m n c (s ∷ ss) h k =
    let (a, b) = &&-true (not (text_eq s.name m)) (fresh m ss) k in
    let rest = fresh-set_carry m n c ss h b in
    elim (Bool-cases (text_eq s.name n)) [ inl e ↦ rw e k | inr e ↦ rw (e, a) rest ]

distinct-set_carry :
    (n c : Text) (ss : List Carried) → distinct ss ≡ true → distinct (set_carry n c ss) ≡ true
unfolding set_carry
distinct-set_carry n c [] h = refl
distinct-set_carry n c (s ∷ ss) h =
    let rest = distinct-set_carry n c ss (&&-true _ _ h).1 in
    elim (Bool-cases (text_eq s.name n)) [
      | inl e ↦ rw e h
      | inr e ↦
          rw (e, fresh-set_carry s.name n c ss (text_eq-other s.name n e) (&&-true _ _ h).0) rest
    ]

carry_of-here :
    (n : Text) (s : Carried) (ss : List Carried)
    → text_eq s.name n ≡ true
    → carry_of n (s ∷ ss) ≡ s.carry
unfolding carry_of
carry_of-here n s ss e = rw e refl

carry_of-later :
    (n : Text) (s : Carried) (ss : List Carried)
    → text_eq s.name n ≡ false
    → carry_of n (s ∷ ss) ≡ carry_of n ss
unfolding carry_of
carry_of-later n s ss e = rw e refl

chunks_to-own :
    (n : Text) (e : Call) (es : List Call)
    → text_eq e.to n ≡ true
    → chunks_to n (e ∷ es) ≡ e.chunk_text ∷ chunks_to n es
unfolding chunks_to
chunks_to-own n e es q = rw q refl

chunks_to-other :
    (n : Text) (e : Call) (es : List Call)
    → text_eq e.to n ≡ false
    → chunks_to n (e ∷ es) ≡ chunks_to n es
unfolding chunks_to
chunks_to-other n e es q = rw q refl

text_to-own :
    (n : Text) (e : Call) (es : List Call)
    → text_eq e.to n ≡ true
    → text_to n (e ∷ es) ≡ e.chunk_text ++ text_to n es
unfolding text_to
text_to-own n e es q = rw q refl

text_to-other :
    (n : Text) (e : Call) (es : List Call)
    → text_eq e.to n ≡ false
    → text_to n (e ∷ es) ≡ text_to n es
unfolding text_to
text_to-other n e es q = rw q refl

carry_of-set_carry : (n c : Text) (ss : List Carried) → carry_of n (set_carry n c ss) ≡ c
unfolding carry_of set_carry
carry_of-set_carry n c [] = rw (text_eq_refl n) refl
carry_of-set_carry n c (s ∷ ss) =
    let rest = carry_of-set_carry n c ss in
    elim (Bool-cases (text_eq s.name n)) [ inl e ↦ rw (e, e) refl | inr e ↦ rw (e, e) rest ]

carry_of-set_other :
    (m n c : Text) (ss : List Carried)
    → text_eq n m ≡ false
    → carry_of m (set_carry n c ss) ≡ carry_of m ss
unfolding carry_of set_carry
carry_of-set_other m n c [] h = rw h refl
carry_of-set_other m n c (s ∷ ss) h =
    let rest = carry_of-set_other m n c ss h in
    elim (Bool-cases (text_eq s.name n)) [
      | inl e ↦
          let q : text_eq s.name m ≡ false = ap (λ t. text_eq t m) (text_eq→eq s.name n e) ∙ h in
          rw (e, q) refl
      | inr e ↦ rw (e, rest) refl
    ]

flush-nothing : (r : Redactor) → flush r [] ≡ []
unfolding flush
flush-nothing r = redact-values r [] ∙ replace-nothing r.values

flush-fresh :
    (n : Text) (r : Redactor) (ss : List Carried)
    → fresh n ss ≡ true
    → text_to n (flush_each r ss) ≡ []
flush-fresh n r [] h = unfold flush_each text_to in refl
flush-fresh n r (s ∷ ss) h =
    let (a, b) = &&-true (not (text_eq s.name n)) (fresh n ss) h in
    elim (Bool-cases (text_eq s.name n)) [
      | inl e ↦ let q = rw e at a in absurd (cc q)
      | inr e ↦ rw (text_to-flush_cons n r s ss, e) (flush-fresh n r ss b)
    ]

-- What the last flush gives for one stream is the flush of what it carries.
text_to-flush_each :
    (n : Text) (r : Redactor) (ss : List Carried)
    → distinct ss ≡ true
    → text_to n (flush_each r ss) ≡ flush r (carry_of n ss)
text_to-flush_each n r [] h = unfold flush_each text_to carry_of in sym (flush-nothing r)
text_to-flush_each n r (s ∷ ss) h =
    let rest = text_to-flush_each n r ss (&&-true _ _ h).1 in
    text_to-flush_cons n r s ss ∙ elim (Bool-cases (text_eq s.name n)) [
      | inr e ↦ rw (carry_of-later n s ss e, e) rest
      | inl e ↦
          let q : fresh n ss ≡ true =
            ap (λ t. fresh t ss) (sym (text_eq→eq s.name n e))
            ∙ (&&-true (fresh s.name ss) (distinct ss) h).0 in
          rw (carry_of-here n s ss e, e, flush-fresh n r ss q) (append_nil (flush r s.carry))
    ]

stream-cons :
    (r : Redactor) (c t : Text) (ts : List Text)
    → stream r c (t ∷ ts) ≡ (chunk r c t).1 ++ stream r (chunk r c t).0 ts
unfolding stream
stream-cons r c t ts = refl

wrap_all-cons :
    (r : Redactor) (ss : List Carried) (e : Call) (es : List Call)
    → wrap_all r ss (e ∷ es)
      ≡ call_with e.to (chunk r (carry_of e.to ss) e.chunk_text).1
        ++ wrap_all r (set_carry e.to (chunk r (carry_of e.to ss) e.chunk_text).0 ss) es
unfolding wrap_all wrapped
wrap_all-cons r ss e es = refl

-- A chunk of the stream itself, by the streams before it and after it.
own_chunk :
    (n m : Text) (r : Redactor) (ss : List Carried) (t : Text) (ts : List Text) (w : Text)
    → m ≡ n
    → w ≡ stream r (carry_of n (set_carry m (chunk r (carry_of m ss) t).0 ss)) ts
    → (chunk r (carry_of m ss) t).1 ++ w ≡ stream r (carry_of n ss) (t ∷ ts)
own_chunk n m r ss t ts w p h =
    rw
      (
        ← p,
        stream-cons r (carry_of m ss) t ts,
        h,
        ← p,
        carry_of-set_carry m (chunk r (carry_of m ss) t).0 ss,
      )
      refl

text_to-wrap_all :
    (n : Text) (r : Redactor) (ss : List Carried) (es : List Call)
    → distinct ss ≡ true
    → text_to n (wrap_all r ss es) ≡ stream r (carry_of n ss) (chunks_to n es)
text_to-wrap_all n r ss [] h =
    unfold wrap_all stream chunks_to in text_to-flush_all n r ss ∙ text_to-flush_each n r ss h
text_to-wrap_all n r ss (e ∷ es) h =
    let c = (chunk r (carry_of e.to ss) e.chunk_text).0 in
    let out = (chunk r (carry_of e.to ss) e.chunk_text).1 in
    let ss' = set_carry e.to c ss in
    let rest = text_to-wrap_all n r ss' es (distinct-set_carry e.to c ss h) in
    rw (wrap_all-cons r ss e es, text_to-call_then n e.to out (wrap_all r ss' es))
      (elim (Bool-cases (text_eq e.to n)) [
        | inr q ↦
            rw (chunks_to-other n e es q, q)
              (rest ∙ ap (λ d. stream r d (chunks_to n es)) (carry_of-set_other n e.to c ss q))
        | inl q ↦
            let p = text_eq→eq e.to n q in
            rw (chunks_to-own n e es q, q)
              (own_chunk n e.to r ss e.chunk_text (chunks_to n es) (text_to n (wrap_all r ss' es)) p
                rest)
      ])

chunk-idle : (r : Redactor) (c t : Text) → is_active r ≡ false → chunk r c t ≡ (c, t)
unfolding chunk
chunk-idle r c t h = rw h refl

-- A redactor with nothing to do puts out every chunk as it came.
text_to-idle :
    (n : Text) (r : Redactor) (es : List Call)
    → is_active r ≡ false
    → text_to n es ≡ stream r [] (chunks_to n es)
text_to-idle n r [] h = unfold text_to chunks_to stream in sym (flush-nothing r)
text_to-idle n r (e ∷ es) h =
    let rest = text_to-idle n r es h in
    elim (Bool-cases (text_eq e.to n)) [
      | inr q ↦ rw (text_to-other n e es q, chunks_to-other n e es q) rest
      | inl q ↦
          rw
            (
              text_to-own n e es q,
              chunks_to-own n e es q,
              stream-cons r [] e.chunk_text (chunks_to n es),
              chunk-idle r [] e.chunk_text h,
            )
            (ap (λ t. e.chunk_text ++ t) rest)
    ]

-- Whatever the order in which the chunks of several streams come, all that Tap gives its sink for
-- one name, the flush included, is what one Stream puts out that is given that name's chunks alone.
pub text_to-tap :
    (n : Text) (r : Redactor) (es : List Call) → text_to n (tap r es) ≡ stream r [] (chunks_to n es)
unfolding tap
text_to-tap n r es = elim (Bool-cases (is_active r)) [
  | inl h ↦ rw h (text_to-wrap_all n r [] es refl)
  | inr h ↦ rw h (text_to-idle n r es h)
]
