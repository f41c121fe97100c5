-- ===== src/Schedule/Firing.antt =====
-- `Next` finds the first firing, and the day rule is that of cron.
use cogitorium.Prelude.{
  ℕ, zero, suc, ◌+◌, ◌*◌, ◌/◌, ◌≤◌, ◌<◌, ◌≡◌, ◌≢◌, ◌⊎◌, inl, inr, ap, ◌∙◌, true, false, some, [],
  arith, Bool-cases, Option-cases,
}
use cogitorium.Schedule.Spec.{Spec}
use cogitorium.Schedule.Next.{
  Civil, Calendar, holds, matches, minute_ns, search_from, horizon, at_minute, next,
}

-- Whether a cron spec means a time, said without its switch: each of minute, hour and month is
-- unrestricted or listed, and if either day field is restricted, one that is lists the day.
pub record Fires (s : Spec) (t : Civil) : Type 0 where
  pub minute : (s.minutes ≡ []) ⊎ (holds s.minutes t.minute ≡ true)
  pub hour : (s.hours ≡ []) ⊎ (holds s.hours t.hour ≡ true)
  pub month : (s.months ≡ []) ⊎ (holds s.months t.month ≡ true)
  pub day :
      ((s.days ≡ []) × (s.weekdays ≡ []))
      ⊎ (holds s.days t.day ≡ true)
      ⊎ (holds s.weekdays t.weekday ≡ true)

matches→Fires : (s : Spec) (t : Civil) → matches s t ≡ true → Fires s t
unfolding matches
matches→Fires s t h = record {
  minute = ground arith;
  hour = ground arith;
  month = ground arith;
  day = ground arith;
}

Fires→matches : (s : Spec) (t : Civil) → Fires s t → matches s t ≡ true
unfolding matches
Fires→matches s t f = ground (arith, f.minute, f.hour, f.month, f.day)

search_hit :
    (left : ℕ) (s : Spec) (cal : Calendar) (t u : ℕ)
    → search_from left s cal t ≡ some u
    → (t ≤ u) × (u < t + left) × (matches s (cal u) ≡ true)
unfolding search_from
search_hit zero s cal t u h = cc
search_hit (suc left) s cal t u h = elim (Bool-cases (matches s (cal t))) [
  | inl e ↦ let same : t ≡ u = ground arith in (omega arith, omega arith, rw (← same) e)
  | inr e ↦
      let (a, b, c) = search_hit left s cal (t + 1) u (ground arith) in
      (omega arith, omega arith, c)
]

search_first :
    (left : ℕ) (s : Spec) (cal : Calendar) (t v : ℕ)
    → t ≤ v
    → v < t + left
    → matches s (cal v) ≡ true
    → (u : ℕ) × (search_from left s cal t ≡ some u) × (u ≤ v)
unfolding search_from
search_first zero s cal t v low high h = absurd (omega arith)
search_first (suc left) s cal t v low high h = elim (Bool-cases (matches s (cal t))) [
  | inl e ↦ (t, ground arith, low)
  | inr e ↦
      let later : t ≢ v = (λ q. cc (ap (λ (m : ℕ). matches s (cal m)) q)) in
      let (u, q, b) = search_first left s cal (t + 1) v (omega arith) (omega arith) h in
      (u, ground arith, b)
]

next_cron_lem :
    (s : Spec) (after : ℕ) (cal : Calendar)
    → s.cron ≡ true
    → next s after cal ≡ at_minute (search_from horizon s cal (after / minute_ns + 1))
unfolding next
next_cron_lem s after cal cron = simp cron

next_at :
    (s : Spec) (after : ℕ) (cal : Calendar) (u : ℕ)
    → s.cron ≡ true
    → search_from horizon s cal (after / minute_ns + 1) ≡ some u
    → next s after cal ≡ some (u * minute_ns)
next_at s after cal u cron e = next_cron_lem s after cal cron ∙ ap at_minute e

-- A time that Next returns is strictly later than the given one. For a cron spec it is a whole
-- minute of the 366 days that follow, and one at which the spec fires; for a duration it is that
-- much later.
pub next_sound :
    (s : Spec) (after : ℕ) (cal : Calendar) (t : ℕ)
    → next s after cal ≡ some t
    → (after < t)
      × (((s.cron ≡ false) × (t ≡ after + s.every))
          ⊎ ((u : ℕ) × (t ≡ u * minute_ns)
              × (u < after / minute_ns + 1 + horizon)
              × Fires s (cal u)))
unfolding next
next_sound s after cal t h = elim (Bool-cases s.cron) [
  | inl cron ↦ elim (Option-cases (search_from horizon s cal (after / minute_ns + 1))) [
    | inl e ↦ cc (next_cron_lem s after cal cron, ap at_minute e)
    | inr (u, e) ↦
        let (low, high, m) = search_hit horizon s cal (after / minute_ns + 1) u e in
        let q : t ≡ u * minute_ns = ground (arith, next_at s after cal u cron e) in
        (omega arith, inr (u, q, high, matches→Fires s (cal u) m))
  ]
  | inr plain ↦ (ground arith, inl (plain, ground arith))
]

-- If a cron spec fires at a minute `v` that is later than the given time, and at most 366 days
-- later, Next returns a minute at which it fires, later than the given time and no later than `v`.
pub next_is_first :
    (s : Spec) (after : ℕ) (cal : Calendar) (v : ℕ)
    → s.cron ≡ true
    → after < v * minute_ns
    → v < after / minute_ns + 1 + horizon
    → Fires s (cal v)
    → (u : ℕ) × (next s after cal ≡ some (u * minute_ns))
      × (after < u * minute_ns)
      × Fires s (cal u)
      × (u ≤ v)
next_is_first s after cal v cron later near f =
    let (u, e, first) =
      search_first horizon s cal (after / minute_ns + 1) v (omega arith) near
        (Fires→matches s (cal v) f) in
    let (low, high, m) = search_hit horizon s cal (after / minute_ns + 1) u e in
    (u, next_at s after cal u cron e, omega arith, matches→Fires s (cal u) m, first)
