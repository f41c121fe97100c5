-- ===== src/Schedule/Waits.antt =====
-- What Create and Update return does not fire at once, and fires at what it names.
use cogitorium.Prelude.{
  ℕ, ◌<◌, ◌≡◌, refl, sym, ap, ◌∙◌, not, Option, [], ◌∷◌, ◌++◌, arith, inl, inr, Bool-cases, any,
  Text, is_empty, trim_space,
}
use cogitorium.Schedule.Spec.{parse}
use cogitorium.Schedule.Next.{Calendar, next}
use cogitorium.Schedule.Table.{
  ScheduleRow, Table, no_name, bad_on_miss, ◌>>=◌, unknown_zone, never_due, Returned, ok, err,
  guard, parsed, or_fault, stamp, valid_target, valid_on_miss, first_set,
}
use cogitorium.Schedule.Store.{
  get, defaulted, or_skip, new_row, insert, insert_checked, checked, create, new_instruction,
  edited, rewrite, rewrite_checked, update,
}
use cogitorium.Schedule.Table.{same_name, next_schedule_id}
use cogitorium.Schedule.Store.{clashes}
use cogitorium.Schedule.Rewritten.{get-id, others, rewrite-stored}
use cogitorium.Schedule.Later.{next_later}
use cogitorium.Schedule.Targets.{
  >>=-ok, parsed-ok, or_fault-ok, NamesTarget, a_task, an_agent, a_gear, valid_target-NamesTarget,
}

new_row-NamesTarget :
    (at : ℕ) (r : ScheduleRow) (spec : Text) (n : ℕ)
    → NamesTarget r
    → NamesTarget (new_row at r spec n)
unfolding new_row
new_row-NamesTarget at r spec n (a_task id k a b c) = a_task id k a b c
new_row-NamesTarget at r spec n (an_agent id k a b c d) = an_agent id k a b c d
new_row-NamesTarget at r spec n (a_gear id k a b c) = a_gear id k a b c

with_id-NamesTarget : (r : ScheduleRow) (i : ℕ) → NamesTarget r → NamesTarget (record r { id = i })
with_id-NamesTarget r i (a_task id k a b c) = a_task id k a b c
with_id-NamesTarget r i (an_agent id k a b c d) = an_agent id k a b c d
with_id-NamesTarget r i (a_gear id k a b c) = a_gear id k a b c

new_row-next :
    (at : ℕ) (r : ScheduleRow) (spec : Text) (n : ℕ) → (new_row at r spec n).next_at ≡ stamp n
unfolding new_row
new_row-next at r spec n = refl

-- The target of a row, its enablement and what it has done stay as they were.
pub record KeepsRecord (r s : ScheduleRow) : Type 0 where
  pub id : s.id ≡ r.id
  pub workspace_id : s.workspace_id ≡ r.workspace_id
  pub created_at : s.created_at ≡ r.created_at
  pub target_kind : s.target_kind ≡ r.target_kind
  pub task_id : s.task_id ≡ r.task_id
  pub target_agent_id : s.target_agent_id ≡ r.target_agent_id
  pub target_gear_id : s.target_gear_id ≡ r.target_gear_id
  pub enabled : s.enabled ≡ r.enabled
  pub last_work_id : s.last_work_id ≡ r.last_work_id
  pub fires : s.fires ≡ r.fires
  pub skips : s.skips ≡ r.skips
  pub last_fired_at : s.last_fired_at ≡ r.last_fired_at
  pub last_outcome : s.last_outcome ≡ r.last_outcome

inserted :
    (t : Table) (r : ScheduleRow) {s : ScheduleRow}
    → (insert t r).1 ≡ ok s
    → (i : ℕ) × (s ≡ record r { id = i }) × ((insert t r).0 ≡ t ++ (s ∷ []))
unfolding insert
inserted t r {s} h = elim (Bool-cases (any (same_name r) t)) [
  | inl e ↦ absurd (cc (rw e at h))
  | inr e ↦
      let row = record r { id = next_schedule_id t } in
      let same : s ≡ row = ground arith in (next_schedule_id t, same, rw (e, same) refl)
]

inserted_fresh :
    (t : Table) (at : ℕ) (o : Returned ScheduleRow) {s : ScheduleRow}
    → ((r : ScheduleRow) → o ≡ ok r → (stamp at < r.next_at) × NamesTarget r)
    → (insert_checked t o).1 ≡ ok s
    → (stamp at < s.next_at) × NamesTarget s × ((insert_checked t o).0 ≡ t ++ (s ∷ []))
inserted_fresh t at (err e) fresh h = cc
inserted_fresh t at (ok r) fresh h =
    let (i, same, added) = inserted t r h in
    let (later, target) = fresh r refl in
    (rw same later, rw same (with_id-NamesTarget r i target), added)

rewritten :
    (t : Table) (o : Returned ScheduleRow) {s : ScheduleRow}
    → (rewrite_checked t o).1 ≡ ok s
    → o ≡ ok s
unfolding rewrite
rewritten t (err e) h = cc
rewritten t (ok r) h = elim (Bool-cases (any (clashes r) t)) [
  | inl e ↦ absurd (cc (rw e at h))
  | inr e ↦ rw e at h
]

module _ (fraction : Text → ℕ → ℕ) (location : Text → Option Calendar) where
  checked-Fresh :
      (at : ℕ) (r : ScheduleRow) {s : ScheduleRow}
      → checked fraction location at r ≡ ok s
      → (stamp at < s.next_at) × NamesTarget s
  unfolding checked
  checked-Fresh at r {s} h =
      let (spec, p, h1) = >>=-ok (parsed (parse fraction r.spec)) _ h in
      let (cal, c, h2) = >>=-ok (or_fault unknown_zone (location r.tz)) _ h1 in
      let (_, _, h3) = >>=-ok (guard (not (is_empty (trim_space r.name))) no_name) _ h2 in
      let (_, _, h4) = >>=-ok (guard (valid_on_miss (or_skip r.on_miss)) bad_on_miss) _ h3 in
      let (target, v, h5) = >>=-ok (valid_target (defaulted r)) _ h4 in
      let (first, n, e) = >>=-ok (or_fault never_due (next spec at cal)) _ h5 in
      let later =
        next_later fraction r.spec at cal first (parsed-ok _ p) (or_fault-ok never_due _ n) in
      let same : new_row at target spec.text first ≡ s = ground arith in
      (
        rw (← same, new_row-next at target spec.text first) later,
        rw (← same) (
            new_row-NamesTarget at target spec.text first
              (valid_target-NamesTarget (defaulted r) v)),
      )

  edited_keeps :
      (at : ℕ) (old new : ScheduleRow) {s : ScheduleRow}
      → edited fraction location at old new ≡ ok s
      → (stamp at < s.next_at) × KeepsRecord old s
  unfolding edited
  edited_keeps at old new {s} h =
      let (spec, p, h1) = >>=-ok (parsed (parse fraction (first_set new.spec old.spec))) _ h in
      let (cal, c, h2) = >>=-ok (or_fault unknown_zone (location new.tz)) _ h1 in
      let (_, _, h3) =
        >>=-ok (guard (not (is_empty (trim_space (first_set new.name old.name)))) no_name) _ h2 in
      let (_, _, h4) =
        >>=-ok (guard (valid_on_miss (first_set new.on_miss old.on_miss)) bad_on_miss) _ h3 in
      let (told, _, h5) = >>=-ok (new_instruction old new.instruction) _ h4 in
      let (first, n, e) = >>=-ok (or_fault never_due (next spec at cal)) _ h5 in
      let later =
        next_later fraction (first_set new.spec old.spec) at cal first (parsed-ok _ p)
          (or_fault-ok never_due _ n) in
      let due : s.next_at ≡ stamp first = ground arith in
      (
        rw due later,
        record {
          id = ground arith;
          workspace_id = ground arith;
          created_at = ground arith;
          target_kind = ground arith;
          task_id = ground arith;
          target_agent_id = ground arith;
          target_gear_id = ground arith;
          enabled = ground arith;
          last_work_id = ground arith;
          fires = ground arith;
          skips = ground arith;
          last_fired_at = ground arith;
          last_outcome = ground arith;
        },
      )

  -- A schedule that is created is due later than now, names the target of its kind and no other, and
  -- is the one row added to the table.
  pub create_fresh :
      (t : Table) (at : ℕ) (r : ScheduleRow) {s : ScheduleRow}
      → (create fraction location t at r).1 ≡ ok s
      → (stamp at < s.next_at)
        × NamesTarget s
        × ((create fraction location t at r).0 ≡ t ++ (s ∷ []))
  unfolding create
  create_fresh t at r h =
      inserted_fresh t at (checked fraction location at r) (λ s. checked-Fresh at r {s = s}) h

  -- An edit that is accepted leaves the target of the schedule, its switch, its workspace and its
  -- record of firings alone, and the schedule is due later than now, whatever it was due at before;
  -- the table has the schedule that is returned under the id, and every other row as it was.
  pub update_keeps :
      (t : Table) (at id : ℕ) (new : ScheduleRow) {s : ScheduleRow}
      → (update fraction location t at id new).1 ≡ ok s
      → (old : ScheduleRow) × (get t id ≡ ok old)
        × (stamp at < s.next_at)
        × KeepsRecord old s
        × (get (update fraction location t at id new).0 id ≡ ok s)
        × (others id (update fraction location t at id new).0 ≡ others id t)
  unfolding update
  update_keeps t at id new {s} h =
      let (old, g, e) =
        >>=-ok (get t id) (λ old. edited fraction location at old new) (rewritten t _ h) in
      let (later, keeps) = edited_keeps at old new e in
      let checked_ok : (get t id >>= λ o. edited fraction location at o new) ≡ ok s =
        rewritten t _ h in
      let same : s.id ≡ id = keeps.id ∙ (get-id t id g).0 in
      let (stored, rest) =
        rewrite-stored t s old (ap (get t) same ∙ g)
          (ap (λ o. (rewrite_checked t o).1) (sym checked_ok) ∙ h) in
      (
        old,
        g,
        later,
        keeps,
        ap (λ o. get (rewrite_checked t o).0 id) checked_ok
            ∙ ap (get (rewrite t s).0) (sym same)
            ∙ stored,
        ap (λ o. others id (rewrite_checked t o).0) checked_ok
            ∙ ap (λ i. others i (rewrite t s).0) (sym same)
            ∙ rest
            ∙ ap (λ i. others i t) same,
      )
