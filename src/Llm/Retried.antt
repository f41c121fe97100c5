-- ===== src/Llm/Retried.antt =====
-- What send in internal/llm/retry.go comes to: its answer, its waits and its end.
use mathlib.Core.Logic.{◌≢◌}
use cogitorium.Prelude.{
  ℕ, zero, suc, ◌-◌, ◌*◌, ◌≤◌, ◌≡◌, refl, Bool, true, false, Option, some, List, [], leb, ◌==◌,
  if◌then◌else◌, Text, ℤ, pos, arith, all, length, Bool-cases, inl, inr,
}
use cogitorium.Llm.Retry.{
  second, max_attempts, backoff, ProviderError, Outcome, Sent, failed, responded, no_backoff,
  unfinished, wait_then, after_call, send_loop, send,
}
use cogitorium.Llm.Sending.{
  is_short, settles, verdict, first_settled, after_settled, after_again, send_fuel, send_turns,
}

-- A call that ended as it should: with waits that are short, at most `n` of them, and without an
-- index out of range.
pub record Ended (n : ℕ) (t : Sent × List ℤ) : Type 0 where
  pub finished : t.0 ≢ unfinished
  pub in_range : t.0 ≢ no_backoff
  pub short : all is_short t.1 ≡ true
  pub few : length t.1 ≤ n

verdict-Ended : (provider : Text) (o : Outcome) (n : ℕ) → Ended n (verdict provider o, [])
verdict-Ended provider (failed e) n = record {
  finished = λ q. cc q;
  in_range = λ q. cc q;
  short = refl;
  few = omega arith;
}
verdict-Ended provider (responded r) n = elim (Bool-cases (r.code == 200)) [
  | inl q ↦
      rw q record { finished = λ k. cc k; in_range = λ k. cc k; short = refl; few = omega arith }
  | inr q ↦
      rw q record { finished = λ k. cc k; in_range = λ k. cc k; short = refl; few = omega arith }
]

wait_then-Ended :
    (w : ℤ) (e : ProviderError) (g : Bool) (n : ℕ) (rest : Sent × List ℤ)
    → is_short w ≡ true
    → Ended n rest
    → Ended (suc n) (wait_then (some w) e g rest)
wait_then-Ended w e true n rest h k = record {
  finished = λ q. cc q;
  in_range = λ q. cc q;
  short = rw h refl;
  few = omega arith;
}
wait_then-Ended w e false n rest h k = record {
  finished = k.finished;
  in_range = k.in_range;
  short = rw h k.short;
  few = omega (arith, k.few);
}

module _ (until : Text → Option ℤ) (gone : ℕ → Bool) (provider : Text) where
  after_call-Ended :
      (attempt n : ℕ) (b : ℤ) (o : Outcome) (rest : Sent × List ℤ)
      → leb max_attempts attempt ≡ false
      → backoff (attempt - 1) ≡ some b
      → is_short b ≡ true
      → Ended n rest
      → Ended (suc n) (after_call until gone provider attempt o rest)
  after_call-Ended attempt n b o rest l k s h = elim (Bool-cases (settles o)) [
    | inl q ↦
        rw (after_settled until gone provider attempt o rest q) (verdict-Ended provider o (suc n))
    | inr q ↦
        let (w, e, r, p) = after_again until gone provider attempt b o rest q l k s in
        rw p (wait_then-Ended w e (gone attempt) n rest r h)
  ]

  -- An answer that is waited for is that of the next attempt, while the context lasts.
  after_call-next :
      (attempt : ℕ) (b : ℤ) (o o' : Outcome) (rest : Sent × List ℤ)
      → leb max_attempts attempt ≡ false
      → backoff (attempt - 1) ≡ some b
      → is_short b ≡ true
      → gone attempt ≡ false
      → rest.0 ≡ verdict provider o'
      → (after_call until gone provider attempt o rest).0
        ≡ verdict provider (if settles o then o else o')
  after_call-next attempt b o o' rest l k s g a = elim (Bool-cases (settles o)) [
    | inl q ↦ rw (q, after_settled until gone provider attempt o rest q) refl
    | inr q ↦
        let (w, e, h, p) = after_again until gone provider attempt b o rest q l k s in
        rw (q, p, g) a
  ]

  two_turns-Ended :
      (do_call : ℕ → Outcome)
      → Ended 2 (
          after_call until gone provider 1
            (do_call 1)
            (after_call until gone provider 2 (do_call 2) (verdict provider (do_call 3), [])))
  two_turns-Ended do_call =
      after_call-Ended 1 1 (pos (2 * second)) (do_call 1)
        (after_call until gone provider 2 (do_call 2) (verdict provider (do_call 3), [])) refl refl
        refl
        (after_call-Ended 2 0 (pos (6 * second)) (do_call 2) (verdict provider (do_call 3), []) refl
          refl refl (verdict-Ended provider (do_call 3) 0))

  -- The loop ends after three attempts at most, whatever the provider answers: with as many rounds
  -- as there are attempts, or more, it is send; it never reads past the end of the backoff table,
  -- it begins at most two waits, and none is longer than thirty seconds.
  pub send-Ended :
      (do_call : ℕ → Outcome) (fuel : ℕ)
      → max_attempts ≤ fuel
      → (send_loop until gone provider do_call fuel 1 ≡ send until gone provider do_call)
        × Ended 2 (send until gone provider do_call)
  send-Ended do_call zero h = absurd (omega (arith, h))
  send-Ended do_call (suc zero) h = absurd (omega (arith, h))
  send-Ended do_call (suc (suc zero)) h = absurd (omega (arith, h))
  send-Ended do_call (suc (suc (suc n))) h = (
    send_fuel until gone provider do_call n,
    rw (send_turns until gone provider do_call) (two_turns-Ended do_call),
  )

  -- While the context lasts, send answers with the first of three attempts that is no retryable
  -- refusal, or with the third: its response where the status is 200, else its error.
  pub send_answers :
      (do_call : ℕ → Outcome)
      → ((n : ℕ) → gone n ≡ false)
      → (send until gone provider do_call).0 ≡ verdict provider (first_settled do_call)
  send_answers do_call lasts = rw (send_turns until gone provider do_call) (
      after_call-next 1 (pos (2 * second)) (do_call 1)
        (if settles (do_call 2) then do_call 2 else do_call 3)
        (after_call until gone provider 2 (do_call 2) (verdict provider (do_call 3), [])) refl refl
        refl (lasts 1)
        (after_call-next 2 (pos (6 * second)) (do_call 2) (do_call 3)
          (verdict provider (do_call 3), []) refl refl refl (lasts 2) refl))
