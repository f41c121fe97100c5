-- ===== src/Egress/Sound.antt =====
-- What holds of the broker after every sequence of events: of each request, one answer at most is on
-- its way, and none while it is open.
use cogitorium.Prelude.{
  ℕ, ◌+◌, ◌≤◌, ◌<◌, ◌≡◌, refl, sym, ap, ◌∙◌, Bool, true, false, Option, none, some, List, [], ◌∷◌,
  ◌++◌, ◌==◌, ltb, if◌then◌else◌, Text, text_eq, count, count-append, arith, Bool-cases,
  Option-cases, inl, inr, ==_iff, ==_refl,
}
use cogitorium.Egress.Broker.{
  Answer, Broker, points_at, open_slot, open_in, close, close_in, decide_in, send_in, mark, expire,
  receive, decide, send,
}
use cogitorium.Egress.Events.{
  World, Event, opens, closes, expires, receives, resolves, sends, overtaken, decided, sent,
  send_first, last_first, step, run,
}

abbrev pub full : Option Answer → ℕ
full none = 0
full (some a) = 1

-- the answers to a request that are on their way: decided and unsent, or in its channel
abbrev pub on_the_way : World → ℕ → ℕ
on_the_way w p = count (λ s. s.0 == p) w.unsent + full (w.broker.heap p).channel

pub record Sound (w : World) : Type 0 where
  pub one : (p : ℕ) → on_the_way w p ≤ 1
  pub closed : (p : ℕ) → 0 < on_the_way w p → (w.broker.heap p).answered ≡ true
  pub known : (p : ℕ) → w.broker.fresh ≤ p → on_the_way w p ≡ 0
  pub slot : (p : ℕ) → w.broker.cur ≡ some p → p < w.broker.fresh

mark_channel : (b : Broker) (p q : ℕ) → full ((mark b p).heap q).channel ≡ full (b.heap q).channel
mark_channel b p q = elim (Bool-cases (q == p)) [
  | inl e ↦ rw e (ap (λ r. full (b.heap r).channel) (sym ((==_iff q p).0 e)))
  | inr e ↦ rw e refl
]

pub mark_answered :
    (b : Broker) (p q : ℕ) → (b.heap q).answered ≡ true → ((mark b p).heap q).answered ≡ true
mark_answered b p q h = ground arith

pub receive_effect :
    (b : Broker) (p q : ℕ)
    → (full ((receive b p).0.heap q).channel ≤ full (b.heap q).channel)
      × (((receive b p).0.heap q).answered ≡ (b.heap q).answered)
unfolding receive
receive_effect b p q = elim (Bool-cases (q == p)) [
  | inl e ↦
      let same : p ≡ q = sym ((==_iff q p).0 e) in
      rw e (omega arith, ap (λ r. (b.heap r).answered) same)
  | inr e ↦ rw e (omega arith, refl)
]

module _ (w : World) (s : Sound w) where
  accept-Sound :
      (p : ℕ) (a : Answer)
      → (w.broker.heap p).answered ≡ false
      → p < w.broker.fresh
      → Sound (record { broker = mark w.broker p; unsent = w.unsent ++ (p, a) ∷ [] })
  accept-Sound p a open_still known =
      let none_yet : on_the_way w p ≡ 0 = ground (arith, s.closed p, open_still) in
      let more : (q : ℕ)
          → count (λ x. x.0 == q) (w.unsent ++ (p, a) ∷ [])
            ≡ count (λ x. x.0 == q) w.unsent + (if p == q then 1 else 0) =
        (λ q. ground (arith, count-append (λ x. x.0 == q) w.unsent ((p, a) ∷ []))) in
      record {
        one = λ q. elim (Bool-cases (p == q)) [
          | inl e ↦
              let still : on_the_way w q ≡ 0 =
                ap (on_the_way w) (sym ((==_iff p q).0 e)) ∙ none_yet in
              ground (arith, still, more q, mark_channel w.broker p q)
          | inr e ↦ ground (arith, s.one q, more q, mark_channel w.broker p q)
        ];
        closed = λ q h. elim (Bool-cases (p == q)) [
          | inl e ↦ ground (arith, (==_iff p q).0 e)
          | inr e ↦
              mark_answered w.broker p q
                (s.closed q (ground (arith, more q, mark_channel w.broker p q)))
        ];
        known = λ q h. ground (arith, s.known q h, more q, mark_channel w.broker p q);
        slot = s.slot;
      }

  open-Sound :
      (o : Option ℕ) (token : Text) (deadline : ℕ)
      → w.broker.cur ≡ o
      → Sound (record w { broker = (open_in o w.broker token deadline).0 })
  open-Sound (some p) token deadline e = s
  open-Sound none token deadline e = record {
    one = λ p. ground (arith, s.one p, s.known p);
    closed = λ p h. ground (arith, s.closed p, s.known p);
    known = λ p h. ground (arith, s.known p);
    slot = λ p h. ground arith;
  }

  close-Sound :
      (o : Option ℕ) (token : Text)
      → w.broker.cur ≡ o
      → Sound (record w { broker = close_in o w.broker token })
  close-Sound none token e = s
  close-Sound (some p) token e = elim (Bool-cases (text_eq (w.broker.heap p).token token)) [
    | inl q ↦ rw q (record { one = s.one; closed = s.closed; known = s.known; slot = λ p h. cc })
    | inr q ↦ rw q s
  ]

  mark-Sound : (p : ℕ) → Sound (record w { broker = mark w.broker p })
  mark-Sound p = record {
    one = λ q. omega (arith, s.one q, mark_channel w.broker p q);
    closed = λ q h.
        mark_answered w.broker p q (s.closed q (omega (arith, h, mark_channel w.broker p q)));
    known = λ q h. omega (arith, s.known q h, mark_channel w.broker p q);
    slot = s.slot;
  }

  expire-Sound : (p : ℕ) → Sound (record w { broker = expire w.broker p })
  unfolding expire
  expire-Sound p = elim (Bool-cases (points_at w.broker.cur p)) [
    | inl e ↦ rw e (mark-Sound p)
    | inr e ↦ rw e s
  ]

  receive-Sound : (p : ℕ) → Sound (record w { broker = (receive w.broker p).0 })
  unfolding receive
  receive-Sound p = record {
    one = λ q. omega (arith, s.one q, (receive_effect w.broker p q).0);
    closed = λ q h.
        (receive_effect w.broker p q).1
        ∙ s.closed q (omega (arith, h, (receive_effect w.broker p q).0));
    known = λ q h. omega (arith, s.known q h, (receive_effect w.broker p q).0);
    slot = s.slot;
  }

  decide-Sound :
      (o : Option ℕ) (token : Text) (a : Answer) (now : ℕ)
      → w.broker.cur ≡ o
      → Sound (decided w.unsent a (decide_in o w.broker token now))
  decide-Sound none token a now e = s
  decide-Sound (some p) token a now e = elim (Bool-cases (text_eq (w.broker.heap p).token token)) [
    | inr q ↦ rw q s
    | inl q ↦ elim (Bool-cases (w.broker.heap p).answered) [
      | inl c ↦ rw (q, c) s
      | inr c ↦ elim (Bool-cases (ltb (w.broker.heap p).deadline now)) [
        | inl d ↦ rw (q, c, d) s
        | inr d ↦ rw (q, c, d) (accept-Sound p a c (s.slot p e))
      ]
    ]
  ]

-- The first decision that is not sent yet finds its channel empty.
pub first_fits :
    (w : World) (p : ℕ) (a : Answer) (rest : List (ℕ × Answer))
    → Sound w
    → w.unsent ≡ (p, a) ∷ rest
    → (w.broker.heap p).channel ≡ none
first_fits w p a rest s e = elim (Option-cases (w.broker.heap p).channel) [
  | inl q ↦ q
  | inr (other, q) ↦
      let some_unsent : 0 < count (λ x. x.0 == p) w.unsent = rw e (ground (arith, ==_refl p)) in
      let occupied : full (w.broker.heap p).channel ≡ 1 = ap full q in
      absurd (omega (arith, s.one p))
]

module _ (w : World) (p : ℕ) (a : Answer) (rest : List (ℕ × Answer)) (s : Sound w)
    (empty : (w.broker.heap p).channel ≡ none)
    (fewer : (q : ℕ)
      → count (λ x. x.0 == q) w.unsent
        ≡ (if p == q then 1 else 0) + count (λ x. x.0 == q) rest) where
  abbrev there : World
  there = sent w rest (send_in none w.broker p a)

  moved : (q : ℕ) → on_the_way there q ≡ on_the_way w q
  moved q = elim (Bool-cases (q == p)) [
    | inr h ↦ ground (arith, fewer q)
    | inl h ↦
        let at_p : on_the_way there p ≡ on_the_way w p =
          ground (arith, ==_refl p, fewer p, empty) in
        rw ((==_iff q p).0 h) at_p
  ]

  kept : (q : ℕ) → (w.broker.heap q).answered ≡ true → (there.broker.heap q).answered ≡ true
  kept q h = elim (Bool-cases (q == p)) [
    | inr e ↦ rw e h
    | inl e ↦ let at_p : (w.broker.heap p).answered ≡ true = rw (← (==_iff q p).0 e) h in rw e at_p
  ]

  sent-Sound : (c : Option Answer) → Sound (sent w rest (send_in c w.broker p a))
  sent-Sound (some other) = s
  sent-Sound none = record {
    one = λ q. omega (arith, s.one q, moved q);
    closed = λ q h. kept q (s.closed q (omega (arith, h, moved q)));
    known = λ q h. omega (arith, s.known q h, moved q);
    slot = s.slot;
  }

send-Sound :
    (w : World) (us : List (ℕ × Answer)) → Sound w → w.unsent ≡ us → Sound (send_first w us)
unfolding send
send-Sound w [] s e = s
send-Sound w ((p, a) ∷ rest) s e =
    sent-Sound w p a rest s (first_fits w p a rest s e) (λ q. ap (count (λ x. x.0 == q)) e)
      (w.broker.heap p).channel

count-last_first :
    (p : ℕ × Answer → Bool) (us : List (ℕ × Answer)) → count p (last_first us) ≡ count p us
count-last_first p [] = refl
count-last_first p (x ∷ us) = ground (arith, count-append p us (x ∷ []))

step-Sound : (w : World) (e : Event) → Sound w → Sound (step w e)
unfolding step open_slot close decide
step-Sound w (opens token deadline) s = open-Sound w s w.broker.cur token deadline refl
step-Sound w (closes token) s = close-Sound w s w.broker.cur token refl
step-Sound w (expires p) s = expire-Sound w s p
step-Sound w (receives p) s = receive-Sound w s p
step-Sound w (resolves token a now) s = decide-Sound w s w.broker.cur token a now refl
step-Sound w sends s = send-Sound w w.unsent s refl
step-Sound w overtaken s = record {
  one = λ q. omega (arith, s.one q, count-last_first (λ x. x.0 == q) w.unsent);
  closed = λ q h. s.closed q (omega (arith, h, count-last_first (λ x. x.0 == q) w.unsent));
  known = λ q h. omega (arith, s.known q h, count-last_first (λ x. x.0 == q) w.unsent);
  slot = s.slot;
}

pub run-Sound : (w : World) (es : List Event) → Sound w → Sound (run w es)
unfolding run
run-Sound w [] s = s
run-Sound w (e ∷ es) s = run-Sound (step w e) es (step-Sound w e s)
