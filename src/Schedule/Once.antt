-- ===== src/Schedule/Once.antt =====
-- Two ticks that read the same due schedule fire it once.
use cogitorium.Prelude.{
  ℕ, ◌≤◌, ◌≡◌, ◌≢◌, refl, ◌∙◌, Bool, true, false, ◌&&◌, Option, none, some, List, [], ◌∷◌, arith,
  inl, inr, Bool-cases, find?, find?-sound, count, count_pos, update_if, if◌then◌else◌, Text, codes,
  text_eq, Memᴰ,
}
use cogitorium.Work.Rows
use cogitorium.Schedule.Spec
use cogitorium.Schedule.Spec.{Spec, parse}
use cogitorium.Schedule.Next.{Calendar, next}
use cogitorium.Schedule.Table.{
  ScheduleRow, Table, ◌>>=◌, or_fault, not_found, stamp, broken, has_schedule_id,
}
use cogitorium.Schedule.Store.{
  get, still_at, advanced, advance, note_unit, switched, write_switched, set_enabled,
}
use cogitorium.Schedule.Later.{next_later}
use cogitorium.Schedule.Tick.{World, zone_or, previous_runs, disable, fired, if_won, fire_at, fire}

module _ {ℓ} {A : Type ℓ} where
  update_if-none : (p : A → Bool) (f : A → A) (xs : List A) → count p xs ≡ 0 → update_if p f xs ≡ xs
  unfolding update_if
  update_if-none p f [] h = refl
  update_if-none p f (x ∷ xs) h = ground (arith, update_if-none p f xs)

  -- A rewrite whose rows fail the test leaves none that pass, where only rewritten rows passed.
  count-rewritten :
      (p q : A → Bool) (f : A → A) (xs : List A)
      → ((x : A) → q x ≡ true → p (f x) ≡ false)
      → ((x : A) → p x ≡ true → q x ≡ true)
      → count p (update_if q f xs) ≡ 0
  unfolding update_if
  count-rewritten p q f [] h k = refl
  count-rewritten p q f (x ∷ xs) h k = ground (arith, h x, k x, count-rewritten p q f xs h k)

  count-kept :
      (p q : A → Bool) (f : A → A) (xs : List A)
      → ((x : A) → q x ≡ true → p (f x) ≡ false)
      → count p xs ≡ 0
      → count p (update_if q f xs) ≡ 0
  unfolding update_if
  count-kept p q f [] h k = refl
  count-kept p q f (x ∷ xs) h k = ground (arith, h x, count-kept p q f xs h)

  count-same :
      (p q : A → Bool) (f : A → A) (xs : List A)
      → ((x : A) → p (f x) ≡ p x)
      → count p (update_if q f xs) ≡ count p xs
  unfolding update_if
  count-same p q f [] h = refl
  count-same p q f (x ∷ xs) h = ground (arith, h x, count-same p q f xs h)

-- No schedule `id` waits for the firing at `seen` any more.
abbrev Gone : Table → ℕ → ℕ → Type 0
Gone t id seen = count (still_at id seen) t ≡ 0

module _ (id seen : ℕ) where
  moved_on :
      (at n : ℕ) (outcome : Text) (work_id : Option ℕ) (r : ScheduleRow)
      → stamp n ≢ seen
      → still_at id seen (advanced at n outcome work_id r) ≡ false
  unfolding advanced
  moved_on at n outcome work_id r h = ground arith

  advance-Gone :
      (t : Table) (at n : ℕ) (outcome : Text) (work_id : Option ℕ)
      → stamp n ≢ seen
      → Gone (advance t at id seen n outcome work_id).0 id seen
  unfolding advance
  advance-Gone t at n outcome work_id h =
      count-rewritten (still_at id seen) (still_at id seen) (advanced at n outcome work_id) t
        (λ r _. moved_on at n outcome work_id r h) (λ r e. e)

  Gone-advance :
      (t : Table) (at other n : ℕ) (outcome : Text) (work_id : Option ℕ)
      → stamp n ≢ seen
      → Gone t id seen
      → Gone (advance t at id other n outcome work_id).0 id seen
  unfolding advance
  Gone-advance t at other n outcome work_id h =
      count-kept (still_at id seen) (still_at id other) (advanced at n outcome work_id) t
        (λ r _. moved_on at n outcome work_id r h)

  Gone-note_unit :
      (t : Table) (at unit_id : ℕ) → Gone t id seen → Gone (note_unit t at id unit_id) id seen
  unfolding note_unit
  Gone-note_unit t at unit_id g =
      count-same (still_at id seen) (has_schedule_id id)
        (λ r. record r { last_work_id = some unit_id; updated_at = stamp at }) t (λ r. refl)
      ∙ g

  -- A tick that comes too late changes nothing.
  advance-late :
      (t : Table) (at n : ℕ) (outcome : Text) (work_id : Option ℕ)
      → Gone t id seen
      → advance t at id seen n outcome work_id ≡ (t, false)
  unfolding advance
  advance-late t at n outcome work_id g =
      rw (update_if-none (still_at id seen) (advanced at n outcome work_id) t g, g) refl

  no_such_row :
      (t : Table) (r : ScheduleRow) → Gone t id seen → Memᴰ r t → still_at id seen r ≡ false
  no_such_row t r g m = elim (Bool-cases (still_at id seen r)) [
    | inl e ↦ absurd (let k = count_pos (still_at id seen) t m e in omega (arith, g))
    | inr e ↦ e
  ]

module _ (fraction : Text → ℕ → ℕ) (location : Text → Option Calendar) (id seen : ℕ) where
  Gone-switched :
      (t : Table) (at : ℕ) (o : Option ScheduleRow)
      → find? (has_schedule_id id) t ≡ o
      → Gone t id seen
      → Gone
          (write_switched fraction location t id
            (or_fault not_found o >>= switched fraction location at false)).0
          id
          seen
  unfolding switched
  Gone-switched t at none e g = g
  Gone-switched t at (some r) e g =
      let (m, _) = find?-sound (has_schedule_id id) t e in
      let away = no_such_row id seen t r g m in
      count-kept (still_at id seen) (has_schedule_id id)
        (λ _. record r { enabled = false; updated_at = stamp at }) t (λ x _. away) g

  Gone-set_enabled :
      (t : Table) (at : ℕ)
      → Gone t id seen
      → Gone (set_enabled fraction location t at id false).0 id seen
  unfolding set_enabled get
  Gone-set_enabled t at = Gone-switched t at (find? (has_schedule_id id) t) refl

module _ (fraction : Text → ℕ → ℕ) (location : Text → Option Calendar) (utc : Calendar)
    (enqueue : ScheduleRow → Rows.Table → Option ℕ × Rows.Table) where
  Gone-failed :
      (at : ℕ) (w : World) (sc : ScheduleRow) (b : Bool)
      → Gone w.table sc.id sc.next_at
      → Gone
          (if b then disable fraction location utc enqueue at w sc.id else w).table
          sc.id
          sc.next_at
  unfolding disable
  Gone-failed at w sc true g = Gone-set_enabled fraction location sc.id sc.next_at w.table at g
  Gone-failed at w sc false g = g

  Gone-fired :
      (at : ℕ) (w : World) (sc : ScheduleRow) (n : ℕ) (r : Option ℕ × Rows.Table)
      → stamp n ≢ sc.next_at
      → Gone w.table sc.id sc.next_at
      → Gone (fired fraction location utc enqueue at w sc n r).table sc.id sc.next_at
  Gone-fired at w sc n (some u, q) h g = Gone-note_unit sc.id sc.next_at w.table at u g
  Gone-fired at w sc n (none, q) h g =
      Gone-failed at _ sc (broken sc)
        (Gone-advance sc.id sc.next_at w.table at (stamp n) n (codes "failed") sc.last_work_id h g)

  Gone-if_won :
      (at : ℕ) (w : World) (sc : ScheduleRow) (n : ℕ) (r : Table × Bool)
      → stamp n ≢ sc.next_at
      → Gone r.0 sc.id sc.next_at
      → Gone (if_won fraction location utc enqueue at w sc n r).table sc.id sc.next_at
  Gone-if_won at w sc n (t, true) h g = Gone-fired at (record w { table = t }) sc n _ h g
  Gone-if_won at w sc n (t, false) h g = g

  -- After a tick for it, the firing that the tick read waits no longer, whatever became of it.
  Gone-fire_at :
      (at : ℕ) (w : World) (sc : ScheduleRow) (n : ℕ)
      → stamp n ≢ sc.next_at
      → Gone (fire_at fraction location utc enqueue at w sc n).table sc.id sc.next_at
  unfolding fire_at
  Gone-fire_at at w sc n h =
      let skip = text_eq sc.on_miss (codes "skip") && previous_runs w.queue sc.last_work_id in
      elim (Bool-cases skip) [
        | inl e ↦
            rw e (advance-Gone sc.id sc.next_at w.table at n (codes "skipped") sc.last_work_id h)
        | inr e ↦ rw e (
            Gone-if_won at w sc n _ h
              (advance-Gone sc.id sc.next_at w.table at n (codes "fired") sc.last_work_id h))
      ]

  fire_at_lem :
      (at : ℕ) (w : World) (sc : ScheduleRow) (n : ℕ)
      → fire_at fraction location utc enqueue at w sc n ≡ (
          if text_eq sc.on_miss (codes "skip") && previous_runs w.queue sc.last_work_id
          then record w {
            table = (advance w.table at sc.id sc.next_at n (codes "skipped") sc.last_work_id).0;
          }
          else if_won fraction location utc enqueue at w sc n
              (advance w.table at sc.id sc.next_at n (codes "fired") sc.last_work_id))
  unfolding fire_at
  fire_at_lem at w sc n = refl

  fire_late :
      (at : ℕ) (w : World) (sc : ScheduleRow) (n : ℕ)
      → Gone w.table sc.id sc.next_at
      → fire_at fraction location utc enqueue at w sc n ≡ w
  fire_late at w sc n g =
      let skip = text_eq sc.on_miss (codes "skip") && previous_runs w.queue sc.last_work_id in
      elim (Bool-cases skip) [
        | inl e ↦
            rw
              (
                fire_at_lem at w sc n,
                e,
                advance-late sc.id sc.next_at w.table at n (codes "skipped") sc.last_work_id g,
              )
              refl
        | inr e ↦
            rw
              (
                fire_at_lem at w sc n,
                e,
                advance-late sc.id sc.next_at w.table at n (codes "fired") sc.last_work_id g,
              )
              refl
      ]

  fire_lem :
      (at : ℕ) (w : World) (sc : ScheduleRow) (s : Spec) (n : ℕ)
      → parse fraction sc.spec ≡ Spec.ok s
      → next s at (zone_or utc (location sc.tz)) ≡ some n
      → fire fraction location utc enqueue at w sc ≡ fire_at fraction location utc enqueue at w sc n
  unfolding fire
  fire_lem at w sc s n p e = rw (p, e) refl

  -- Two ticks, at any two times, that read the same due schedule: what the first leaves, of the
  -- table and of the queue, the second leaves as it is, so the firing has its effect once. The spec
  -- must parse and come round again at both times.
  pub fire_once :
      (at at' : ℕ) (w : World) (sc : ScheduleRow) (s : Spec) (n n' : ℕ)
      → sc.next_at ≤ stamp at
      → parse fraction sc.spec ≡ Spec.ok s
      → next s at (zone_or utc (location sc.tz)) ≡ some n
      → next s at' (zone_or utc (location sc.tz)) ≡ some n'
      → fire fraction location utc enqueue at' (fire fraction location utc enqueue at w sc) sc
        ≡ fire fraction location utc enqueue at w sc
  fire_once at at' w sc s n n' due p e e' =
      let later = next_later fraction sc.spec at (zone_or utc (location sc.tz)) n p e in
      let w' = fire fraction location utc enqueue at w sc in
      let moved : stamp n ≢ sc.next_at = omega (arith, later, due) in
      let g : Gone w'.table sc.id sc.next_at =
        rw (fire_lem at w sc s n p e) (Gone-fire_at at w sc n moved) in
      fire_lem at' w' sc s n' p e' ∙ fire_late at' w' sc n' g
