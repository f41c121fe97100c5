-- ===== src/Egress/Final.antt =====
-- A request is decided once at most, and not after its turn gave up; and a send never blocks.
use cogitorium.Prelude.{
  ℕ, ◌<◌, ◌≡◌, ◌≢◌, refl, ap, ◌∙◌, true, false, Option, none, some, List, [], ◌∷◌, ◌==◌, ltb, Text,
  text_eq, arith, Bool-cases, inl, inr, ==_iff, ==_refl,
}
use cogitorium.Egress.Broker.{
  Result, ok, err, Answer, Broker, points_at, open_slot, open_in, close, close_in, mark, expire,
  receive, decide, decide_in, send, send_in,
}
use cogitorium.Egress.Events.{
  World, Event, opens, closes, expires, receives, resolves, sends, overtaken, decided, sent,
  send_first, step, run,
}
use cogitorium.Egress.Sound.{Sound, mark_answered, receive_effect, first_fits, run-Sound}

-- handed out, and answered or given up
abbrev pub Closed : Broker → ℕ → Type 0
Closed b p = (p < b.fresh) × ((b.heap p).answered ≡ true)

mark-Closed : (b : Broker) (q p : ℕ) → Closed b p → Closed (mark b q) p
mark-Closed b q p h = (h.0, mark_answered b q p h.1)

open-Closed :
    (o : Option ℕ) (b : Broker) (token : Text) (deadline p : ℕ)
    → Closed b p
    → Closed (open_in o b token deadline).0 p
open-Closed (some q) b token deadline p h = h
open-Closed none b token deadline p h = (omega (arith, h.0), ground (arith, h.0, h.1))

close-Closed :
    (o : Option ℕ) (b : Broker) (token : Text) (p : ℕ) → Closed b p → Closed (close_in o b token) p
close-Closed none b token p h = h
close-Closed (some q) b token p h = elim (Bool-cases (text_eq (b.heap q).token token)) [
  | inl e ↦ rw e h
  | inr e ↦ rw e h
]

expire-Closed : (b : Broker) (q p : ℕ) → Closed b p → Closed (expire b q) p
unfolding expire
expire-Closed b q p h = elim (Bool-cases (points_at b.cur q)) [
  | inl e ↦ rw e (mark-Closed b q p h)
  | inr e ↦ rw e h
]

receive-Closed : (b : Broker) (q p : ℕ) → Closed b p → Closed (receive b q).0 p
unfolding receive
receive-Closed b q p h = (h.0, (receive_effect b q p).1 ∙ h.1)

decide-Closed :
    (o : Option ℕ) (b : Broker) (token : Text) (now p : ℕ)
    → Closed b p
    → Closed (decide_in o b token now).0 p
decide-Closed none b token now p h = h
decide-Closed (some q) b token now p h = elim (Bool-cases (text_eq (b.heap q).token token)) [
  | inr e ↦ rw e h
  | inl e ↦ elim (Bool-cases (b.heap q).answered) [
    | inl c ↦ rw (e, c) h
    | inr c ↦ elim (Bool-cases (ltb (b.heap q).deadline now)) [
      | inl d ↦ rw (e, c, d) h
      | inr d ↦ rw (e, c, d) (mark-Closed b q p h)
    ]
  ]
]

decided-Closed :
    (unsent : List (ℕ × Answer)) (a : Answer) (r : Broker × Result ℕ) (p : ℕ)
    → Closed r.0 p
    → Closed (decided unsent a r).broker p
decided-Closed unsent a (b, ok q) p h = h
decided-Closed unsent a (b, err e) p h = h

sent-Closed :
    (w : World) (rest : List (ℕ × Answer)) (c : Option Answer) (q : ℕ) (a : Answer) (p : ℕ)
    → Closed w.broker p
    → Closed (sent w rest (send_in c w.broker q a)).broker p
sent-Closed w rest (some other) q a p h = h
sent-Closed w rest none q a p h = (
  h.0,
  elim (Bool-cases (p == q)) [
    | inr e ↦ rw e h.1
    | inl e ↦
        let at_q : (w.broker.heap q).answered ≡ true = rw (← (==_iff p q).0 e) h.1 in rw e at_q
  ],
)

send-Closed :
    (w : World) (us : List (ℕ × Answer)) (p : ℕ)
    → Closed w.broker p
    → Closed (send_first w us).broker p
unfolding send
send-Closed w [] p h = h
send-Closed w ((q, a) ∷ rest) p h = sent-Closed w rest (w.broker.heap q).channel q a p h

step-Closed : (w : World) (e : Event) (p : ℕ) → Closed w.broker p → Closed (step w e).broker p
unfolding step open_slot close decide
step-Closed w (opens token deadline) p h = open-Closed w.broker.cur w.broker token deadline p h
step-Closed w (closes token) p h = close-Closed w.broker.cur w.broker token p h
step-Closed w (expires q) p h = expire-Closed w.broker q p h
step-Closed w (receives q) p h = receive-Closed w.broker q p h
step-Closed w (resolves token a now) p h =
    decided-Closed w.unsent a (decide_in w.broker.cur w.broker token now) p
      (decide-Closed w.broker.cur w.broker token now p h)
step-Closed w sends p h = send-Closed w w.unsent p h
step-Closed w overtaken p h = h

run-Closed : (w : World) (es : List Event) (p : ℕ) → Closed w.broker p → Closed (run w es).broker p
unfolding run
run-Closed w [] p h = h
run-Closed w (e ∷ es) p h = run-Closed (step w e) es p (step-Closed w e p h)

-- A decision is only ever taken of a request that has the slot, under its token, that is open, and
-- in time; and it closes it.
decide_taken :
    (o : Option ℕ) (b : Broker) (token : Text) (now p : ℕ)
    → (decide_in o b token now).1 ≡ ok p
    → (o ≡ some p)
      × ((b.heap p).answered ≡ false)
      × (((decide_in o b token now).0.heap p).answered ≡ true)
decide_taken none b token now p h = cc
decide_taken (some q) b token now p h = elim (Bool-cases (text_eq (b.heap q).token token)) [
  | inr e ↦ cc (rw e at h)
  | inl e ↦ elim (Bool-cases (b.heap q).answered) [
    | inl c ↦ cc (rw (e, c) at h)
    | inr c ↦ elim (Bool-cases (ltb (b.heap q).deadline now)) [
      | inl d ↦ cc (rw (e, c, d) at h)
      | inr d ↦
          let same : q ≡ p = cc (rw (e, c, d) at h) in
          let marked : ((mark b q).heap q).answered ≡ true = ground (arith, ==_refl q) in
          let marked' : ((mark b q).heap p).answered ≡ true = rw (← same) marked in
          let open_still : (b.heap p).answered ≡ false = rw same at c in
          (ap some same, open_still, rw (e, c, d) marked')
    ]
  ]
]

decide_fresh :
    (o : Option ℕ) (b : Broker) (token : Text) (now : ℕ)
    → (decide_in o b token now).0.fresh ≡ b.fresh
decide_fresh none b token now = refl
decide_fresh (some q) b token now = ground arith

not_again :
    (b : Broker) (p : ℕ) (token : Text) (now : ℕ) → Closed b p → (decide b token now).1 ≢ ok p
unfolding decide
not_again b p token now h = (λ e.
    let (a, c, d) = decide_taken b.cur b token now p e in
    let closed : (b.heap p).answered ≡ true = h.1 in cc)

-- The broker at start up.
abbrev pub idle : World
idle = record {
  broker = record {
    cur = none;
    heap = λ p. record { token = []; deadline = 0; answered = false; channel = none };
    fresh = 0;
  };
  unsent = [];
}

idle-Sound : Sound idle
idle-Sound = record {
  one = λ p. omega arith;
  closed = λ p h. absurd (omega arith);
  known = λ p h. refl;
  slot = λ p h. cc;
}

-- However turns and handlers interleave, before and after: once Resolve took a decision on a request,
-- it takes no other on it.
pub decided_once :
    (before es : List Event) (token : Text) (a : Answer) (now p : ℕ) (token' : Text) (now' : ℕ)
    → let w = run idle before in
      (decide w.broker token now).1 ≡ ok p
      → (decide (run (step w (resolves token a now)) es).broker token' now').1 ≢ ok p
unfolding decide step
decided_once before es token a now p token' now' h =
    let w = run idle before in
    let s = run-Sound idle before idle-Sound in
    let (slot, c, d) = decide_taken w.broker.cur w.broker token now p h in
    let known : p < (decide_in w.broker.cur w.broker token now).0.fresh =
      omega (arith, s.slot p slot, decide_fresh w.broker.cur w.broker token now) in
    not_again (run (step w (resolves token a now)) es).broker p token' now' (
      run-Closed (step w (resolves token a now)) es p
        (decided-Closed w.unsent a (decide_in w.broker.cur w.broker token now) p (known, d)))

-- However they interleave: once a turn gave up its request while that had the slot, Resolve takes no
-- decision on it.
pub given_up_is_final :
    (before es : List Event) (p : ℕ) (token : Text) (now : ℕ)
    → let w = run idle before in
      w.broker.cur ≡ some p → (decide (run (step w (expires p)) es).broker token now).1 ≢ ok p
unfolding step expire
given_up_is_final before es p token now h =
    let w = run idle before in
    let s = run-Sound idle before idle-Sound in
    let here : points_at w.broker.cur p ≡ true = ap (λ o. points_at o p) h ∙ ==_refl p in
    let closed : Closed (expire w.broker p) p =
      rw (here, expire) ((s.slot p h, ground (arith, ==_refl p))) in
    not_again (run (step w (expires p)) es).broker p token now
      (run-Closed (step w (expires p)) es p closed)

-- However they interleave: the send that follows a decision never blocks.
pub send_never_blocks :
    (es : List Event) (p : ℕ) (a : Answer) (rest : List (ℕ × Answer))
    → (run idle es).unsent ≡ (p, a) ∷ rest
    → (b : Broker) × (send (run idle es).broker p a ≡ some b)
unfolding send
send_never_blocks es p a rest e =
    let w = run idle es in
    let empty = first_fits w p a rest (run-Sound idle es idle-Sound) e in
    (_, ap (λ c. send_in c w.broker p a) empty)
