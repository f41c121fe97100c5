-- ===== src/Websearch/Approved.antt =====
-- What ValidateQuery (internal/websearch/policy.go) lets through, and how it flags it.
use mathlib.Core.Logic.{◌↔◌}
use cogitorium.Prelude.{
  ℕ, ◌+◌, ◌<◌, ◌≤◌, ◌≡◌, refl, ap, Bool, true, false, not, [], ◌∷◌, ◌++◌, arith, inl, inr, ◌⊎◌,
  Bool-cases, all, any, All, Memᴰ, ltb, sym, ◌∙◌, ◌==◌, ==_iff, ==_refl, &&-true, codes, Text,
  is_empty, is_space, trim_space, length,
}
use cogitorium.Websearch.Query.{
  sent, max_query_runes, blob_run, query_punct, flagged_from, is_printable, validate_trimmed,
  validate_query,
}

abbrev pub is_dark : ℕ → Bool
is_dark r = not (is_space r)

-- Somewhere in the text stands a run of more than 48 characters without a space.
pub record HasBlob (q : Text) : Type 0 where
  pub before : Text
  pub run : Text
  pub after : Text
  pub parts : q ≡ before ++ (run ++ after)
  pub dark : all is_dark run ≡ true
  pub long : 48 < length run

-- The run that is under way is the first word of the text, or a later one is too long.
record Leading (n : ℕ) (q : Text) : Type 0 where
  word : Text
  rest : Text
  parts : q ≡ word ++ rest
  dark : all is_dark word ≡ true
  long : blob_run < n + length word

blob_later : (r : ℕ) (q : Text) → HasBlob q → HasBlob (r ∷ q)
blob_later r q b = record {
  before = r ∷ b.before;
  run = b.run;
  after = b.after;
  parts = ap (λ (t : Text). r ∷ t) b.parts;
  dark = b.dark;
  long = b.long;
}

blob_first : (q : Text) → Leading 0 q → HasBlob q
blob_first q l = record {
  before = [];
  run = l.word;
  after = l.rest;
  parts = l.parts;
  dark = l.dark;
  long = ground arith;
}

extend : (n r : ℕ) (q : Text) → is_space r ≡ false → Leading (n + 1) q → Leading n (r ∷ q)
extend n r q e l = record {
  word = r ∷ l.word;
  rest = l.rest;
  parts = ap (λ (t : Text). r ∷ t) l.parts;
  dark = rw e l.dark;
  long = ground arith;
}

flagged-blob : (n : ℕ) (q : Text) → flagged_from n q ≡ true → Leading n q ⊎ HasBlob q
unfolding flagged_from
flagged-blob n [] h = cc
flagged-blob n (r ∷ q) h = elim (Bool-cases (is_space r)) [
  | inl e ↦ inr (elim (flagged-blob 0 q (rw e at h)) [
    | inl l ↦ blob_later r q (blob_first q l)
    | inr b ↦ blob_later r q b
  ])
  | inr e ↦ elim (Bool-cases (ltb blob_run (n + 1))) [
    | inl k ↦
        inl
          (record { word = r ∷ []; rest = q; parts = refl; dark = rw e refl; long = ground arith })
    | inr k ↦ elim (flagged-blob (n + 1) q (rw (e, k) at h)) [
      | inl l ↦ inl (extend n r q e l)
      | inr b ↦ inr (blob_later r q b)
    ]
  ]
]

flagged_word :
    (n : ℕ) (word rest : Text)
    → n ≤ blob_run
    → all is_dark word ≡ true
    → blob_run < n + length word
    → flagged_from n (word ++ rest) ≡ true
unfolding flagged_from
flagged_word n [] rest k d h = absurd (omega arith)
flagged_word n (r ∷ word) rest k d h = elim (Bool-cases (ltb blob_run (n + 1))) [
  | inl e ↦ ground arith
  | inr e ↦ ground (arith, flagged_word (n + 1) word rest)
]

flagged_run :
    (n : ℕ) (before run after : Text)
    → n ≤ blob_run
    → all is_dark run ≡ true
    → blob_run < length run
    → flagged_from n (before ++ (run ++ after)) ≡ true
unfolding flagged_from
flagged_run n [] run after k d h = flagged_word n run after k d (omega arith)
flagged_run n (r ∷ before) run after k d h =
    ground (arith, flagged_run 0 before run after, flagged_run (n + 1) before run after)

flagged_iff : (q : Text) → (flagged_from 0 q ≡ true) ↔ HasBlob q
flagged_iff q = (
  λ h. elim (flagged-blob 0 q h) [ inl l ↦ blob_first q l | inr b ↦ b ],
  λ b. rw b.parts (flagged_run 0 b.before b.run b.after (omega arith) b.dark b.long),
)

bool_eq : (a b : Bool) → (a ≡ true → b ≡ true) → (b ≡ true → a ≡ true) → a ≡ b
bool_eq true b f g = sym (f refl)
bool_eq false true f g = g refl
bool_eq false false f g = refl

-- The punctuation of a query.
abbrev pub punctuation : Text
punctuation = codes "-_.,:;!?'\"()[]/+*=#@%&~$|<>"

all-All :
    (p : ℕ → Bool) (Q : ℕ → Type 0) (q : Text)
    → ((c : ℕ) → (p c ≡ true) ↔ Q c)
    → (all p q ≡ true) ↔ All Q q
all-All p Q [] k = ((λ h. tt), λ h. refl)
all-All p Q (c ∷ q) k =
    let (to, from) = all-All p Q q k in
    (
      λ h. let (a, b) = &&-true (p c) (all p q) h in ((k c).0 a, to b),
      λ h. rw ((k c).1 h.0, from h.1) refl,
    )

mem_any :
    (d : ℕ) (q : Text) (c : ℕ)
    → (Memᴰ c q → any (λ e. e == c) q ≡ true)
    → Memᴰ c (d ∷ q)
    → any (λ e. e == c) (d ∷ q) ≡ true
mem_any d q c from (Memᴰ.head e) = rw (e, ==_refl d) refl
mem_any d q c from (Memᴰ.tail m) = ground (arith, from m)

any-Memᴰ : (q : Text) (c : ℕ) → (any (λ d. d == c) q ≡ true) ↔ Memᴰ c q
any-Memᴰ [] c = ((λ h. cc), λ m. elim m [ ])
any-Memᴰ (d ∷ q) c =
    let (to, from) = any-Memᴰ q c in
    (
      λ h. elim (Bool-cases (d == c)) [
        | inl e ↦ Memᴰ.head (sym ((==_iff d c).0 e))
        | inr e ↦ Memᴰ.tail (to (rw e at h))
      ],
      λ m. mem_any d q c from m,
    )

module _ (is_letter is_number : ℕ → Bool) where
  -- A character that a query may have: a space, a letter, a number, or the punctuation.
  pub data Allowed (c : ℕ) : Type 0 where
    a_space : c ≡ b' ' → Allowed c
    a_letter : is_letter c ≡ true → Allowed c
    a_number : is_number c ≡ true → Allowed c
    a_mark : Memᴰ c punctuation → Allowed c

  -- What makes a trimmed text a query.
  pub record IsQuery (q : Text) : Type 0 where
    pub some_text : is_empty q ≡ false
    pub short : length q ≤ 256
    pub printable : All Allowed q

  Allowed-printable : (c : ℕ) → Allowed c → is_printable is_letter is_number c ≡ true
  unfolding is_printable query_punct
  Allowed-printable c (a_space e) = rw ((==_iff c b' ').1 e) refl
  Allowed-printable c (a_letter e) = ground (arith, e)
  Allowed-printable c (a_number e) = ground (arith, e)
  Allowed-printable c (a_mark m) = ground (arith, (any-Memᴰ punctuation c).1 m)

  printable-Allowed : (c : ℕ) → (is_printable is_letter is_number c ≡ true) ↔ Allowed c
  unfolding is_printable query_punct
  printable-Allowed c = (
    λ h. elim (Bool-cases (c == b' ')) [
      | inl e ↦ a_space ((==_iff c b' ').0 e)
      | inr e ↦ elim (Bool-cases (is_letter c)) [
        | inl f ↦ a_letter f
        | inr f ↦ elim (Bool-cases (is_number c)) [
          | inl g ↦ a_number g
          | inr g ↦ a_mark ((any-Memᴰ punctuation c).0 (rw (e, f, g) at h))
        ]
      ]
    ],
    λ a. Allowed-printable c a,
  )

  trimmed_sent :
      (q t : Text) (flag : Bool)
      → validate_trimmed is_letter is_number q ≡ sent t flag
      → (t ≡ q)
        × (flag ≡ flagged_from 0 q)
        × (is_empty q ≡ false)
        × (length q ≤ max_query_runes)
        × (all (is_printable is_letter is_number) q ≡ true)
  unfolding validate_trimmed
  trimmed_sent q t flag h = ground arith

  sent_trimmed :
      (q : Text) → IsQuery q → validate_trimmed is_letter is_number q ≡ sent q (flagged_from 0 q)
  unfolding validate_trimmed
  sent_trimmed q k =
      let p =
        (all-All (is_printable is_letter is_number) Allowed q printable-Allowed).1 k.printable in
      let s : ltb max_query_runes (length q) ≡ false = ground (arith, k.short) in
      rw (k.some_text, s, p) refl

  -- A query passes if and only if what is sent is the text with the spaces around it cut off, and that has
  -- at least one character and at most 256, each of them a space, a letter, a number or one of the
  -- punctuation marks; it is flagged if and only if it has a run of more than 48 characters without
  -- a space.
  pub sent_exactly :
      (q t : Text) (flag : Bool)
      → (validate_query is_letter is_number q ≡ sent t flag)
        ↔ ((t ≡ trim_space q) × IsQuery t × ((flag ≡ true) ↔ HasBlob t))
  unfolding validate_query
  sent_exactly q t flag = (
    λ h.
        let (e, f, some_text, short, p) = trimmed_sent (trim_space q) t flag h in
        let k : IsQuery (trim_space q) = record {
          some_text = some_text;
          short = short;
          printable =
              (all-All (is_printable is_letter is_number) Allowed (trim_space q)
                  printable-Allowed).0
                p;
        } in
        (e, rw e k, rw (f, e) (flagged_iff (trim_space q))),
    λ (e, k, b).
        let same : flagged_from 0 t ≡ flag =
          bool_eq (flagged_from 0 t) flag (λ h. b.1 ((flagged_iff t).0 h))
            (λ h. (flagged_iff t).1 (b.0 h)) in
        rw (← e) (sent_trimmed t k ∙ ap (sent t) same),
  )
