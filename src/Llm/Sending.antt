-- ===== src/Llm/Sending.antt =====
-- The loop of send in internal/llm/retry.go.
use cogitorium.Prelude.{
  ℕ, suc, ◌-◌, ◌*◌, ◌≡◌, refl, sym, ap, ◌∙◌, Bool, true, false, not, ◌||◌, Option, none, some, List,
  [], leb, ◌==◌, if◌then◌else◌, Text, is_empty, trim_space, ℤ, pos, negsuc, atoi, arith, Bool-cases,
  inl, inr,
}
use cogitorium.Llm.Retry.{
  second, max_attempts, backoff, max_retry_after, ProviderError, Outcome, Sent, failed, responded,
  response, lost, refused, is_retryable, http_error_of, wrapped_int, at_most, from_now, stated_wait,
  retry_after, or_backoff, wait_then, after_call, send_loop, send,
}

abbrev pub is_short : ℤ → Bool
is_short (pos n) = leb n max_retry_after
is_short (negsuc n) = true

-- An outcome that is not asked for again.
abbrev pub settles : Outcome → Bool
settles (failed e) = true
settles (responded r) = r.code == 200 || not (is_retryable r.code)

-- What the caller is told of it.
abbrev pub verdict : Text → Outcome → Sent
verdict provider (failed e) = lost e
verdict provider (responded r) =
    if r.code == 200 then response r else refused (http_error_of r provider)

abbrev pub first_settled : (ℕ → Outcome) → Outcome
first_settled do_call =
    if settles (do_call 1) then do_call 1 else if settles (do_call 2) then do_call 2 else do_call 3

at_most-short : (d : ℤ) → is_short (at_most d) ≡ true
at_most-short (pos n) = ground arith
at_most-short (negsuc n) = refl

some_short : (d w : ℤ) → is_short d ≡ true → some d ≡ some w → is_short w ≡ true
some_short d w h e = cc (h, e)

short_stated : (a o : Option ℤ) (w : ℤ) → stated_wait a o ≡ some w → is_short w ≡ true
short_stated (some (pos n)) o w e =
    some_short (at_most (wrapped_int (n * second))) w (at_most-short (wrapped_int (n * second))) e
short_stated (some (negsuc n)) o w e = cc e
short_stated none none w e = cc e
short_stated none (some d) w e = some_short (at_most (from_now d)) w (at_most-short (from_now d)) e

short_read :
    (until : Text → Option ℤ) (h : Text) (w : ℤ) → retry_after until h ≡ some w → is_short w ≡ true
unfolding retry_after
short_read until h w e = elim (Bool-cases (is_empty (trim_space h))) [
  | inl q ↦ let k = rw q at e in cc k
  | inr q ↦ short_stated (atoi (trim_space h)) (until (trim_space h)) w (rw q at e)
]

-- A wait is found, and it is short.
short_wait :
    (o : Option ℤ) (attempt : ℕ) (b : ℤ)
    → ((w : ℤ) → o ≡ some w → is_short w ≡ true)
    → backoff (attempt - 1) ≡ some b
    → is_short b ≡ true
    → (w : ℤ) × (or_backoff o attempt ≡ some w) × (is_short w ≡ true)
short_wait none attempt b h e k = (b, e, k)
short_wait (some w) attempt b h e k = (w, refl, h w refl)

or_false : (a b : Bool) → (a || b) ≡ false → (a ≡ false) × (b ≡ false)
or_false true b h = absurd (cc h)
or_false false b h = (refl, h)

module _ (until : Text → Option ℤ) (gone : ℕ → Bool) (provider : Text) where
  pub after_settled :
      (attempt : ℕ) (o : Outcome) (rest : Sent × List ℤ)
      → settles o ≡ true
      → after_call until gone provider attempt o rest ≡ (verdict provider o, [])
  unfolding after_call
  after_settled attempt (failed e) rest h = refl
  after_settled attempt (responded r) rest h = elim (Bool-cases (r.code == 200)) [
    | inl q ↦ rw q refl
    | inr q ↦ let k = rw q at h in rw (q, k) refl
  ]

  after_last :
      (o : Outcome) (rest : Sent × List ℤ)
      → after_call until gone provider 3 o rest ≡ (verdict provider o, [])
  unfolding after_call
  after_last (failed e) rest = refl
  after_last (responded r) rest = elim (Bool-cases (r.code == 200)) [
    | inl q ↦ rw q refl
    | inr q ↦ elim (Bool-cases (is_retryable r.code)) [
      | inl k ↦ rw (q, k) refl
      | inr k ↦ rw (q, k) refl
    ]
  ]

  -- A retryable refusal before the last attempt is waited for.
  pub after_again :
      (attempt : ℕ) (b : ℤ) (o : Outcome) (rest : Sent × List ℤ)
      → settles o ≡ false
      → leb max_attempts attempt ≡ false
      → backoff (attempt - 1) ≡ some b
      → is_short b ≡ true
      → (w : ℤ) × (e : ProviderError) × (is_short w ≡ true)
        × (after_call until gone provider attempt o rest ≡ wait_then (some w) e (gone attempt) rest)
  unfolding after_call
  after_again attempt b (failed e) rest h l k s = absurd (cc h)
  after_again attempt b (responded r) rest h l k s =
      let (w, p, q) =
        short_wait (retry_after until r.retry_header) attempt b (short_read until r.retry_header) k
          s in
      let (x, y) = or_false (r.code == 200) (not (is_retryable r.code)) h in
      (w, http_error_of r provider, q, rw (x, y, l, p) refl)

  -- The three attempts, read from the last.
  third : (ℕ → Outcome) → Sent × List ℤ
  third do_call = (verdict provider (do_call 3), [])

  last_attempt :
      (do_call : ℕ → Outcome) (n : ℕ)
      → send_loop until gone provider do_call (suc n) 3 ≡ third do_call
  unfolding send_loop third
  last_attempt do_call n = after_last (do_call 3) (send_loop until gone provider do_call n 4)

  pub send_fuel :
      (do_call : ℕ → Outcome) (n : ℕ)
      → send_loop until gone provider do_call (suc (suc (suc n))) 1
        ≡ send until gone provider do_call
  unfolding send
  send_fuel do_call n =
      ap
        (λ t.
          after_call until gone provider 1 (do_call 1)
            (after_call until gone provider 2 (do_call 2) t))
        (last_attempt do_call n ∙ sym (last_attempt do_call 0))

  pub send_turns :
      (do_call : ℕ → Outcome)
      → send until gone provider do_call
        ≡ after_call until gone provider 1
            (do_call 1)
            (after_call until gone provider 2 (do_call 2) (verdict provider (do_call 3), []))
  unfolding send third
  send_turns do_call =
      ap
        (λ t.
          after_call until gone provider 1 (do_call 1)
            (after_call until gone provider 2 (do_call 2) t))
        (last_attempt do_call 0)
