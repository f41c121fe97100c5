-- ===== src/Schedule/Store.antt =====
-- The operations of Store in internal/schedule/store.go. The clock is an argument, in nanoseconds;
-- `location` is the zone database, and `fraction` the parameter of the duration form.

use cogitorium.Prelude.{
  ℕ, zero, suc, ◌+◌, ◌≡◌, Bool, true, false, not, ◌&&◌, ◌||◌, Option, none, some, List, [], ◌∷◌,
  ◌++◌, any, find?, count, update_if, leb, ltb, ◌==◌, if◌then◌else◌, Text, codes, text_eq, text_ltb,
  is_empty, trim_space, sort_by,
}
use cogitorium.Schedule.Spec.{parse}
use cogitorium.Schedule.Next.{Calendar, next}
use cogitorium.Schedule.Table.{
  ScheduleRow, Table, unknown_zone, no_name, bad_on_miss, no_instruction, never_due, conflict,
  not_found, Returned, ok, err, ◌>>=◌, ◌>>◌, guard, parsed, or_fault, stamp, agent_kind,
  valid_target, valid_on_miss, first_set, has_schedule_id, same_name, next_schedule_id,
}
use cogitorium.Prelude

-- Get
unfoldable pub get : Table → ℕ → Returned ScheduleRow
get t id = or_fault not_found (find? (has_schedule_id id) t)

-- `{}` for a payload or arguments that are blank
abbrev pub or_braces : Text → Text
or_braces s = if is_empty (trim_space s) then codes "{}" else s

abbrev pub or_skip : Text → Text
or_skip s = if is_empty s then codes "skip" else s

-- INSERT INTO schedules: the row, with the columns that Create sets
unfoldable pub new_row : ℕ → ScheduleRow → Text → ℕ → ScheduleRow
new_row at r spec next = record r {
  spec = spec;
  enabled = true;
  next_at = stamp next;
  last_work_id = none;
  last_fired_at = none;
  last_outcome = [];
  fires = 0;
  skips = 0;
  created_at = stamp at;
  updated_at = stamp at;
}

unfoldable pub insert : Table → ScheduleRow → Table × Returned ScheduleRow
unfolding same_name next_schedule_id
insert t r =
    if any (same_name r) t
    then (t, err conflict)
    else let row = record r { id = next_schedule_id t } in (t ++ row ∷ [], ok row)

abbrev pub insert_checked : Table → Returned ScheduleRow → Table × Returned ScheduleRow
insert_checked t (ok r) = insert t r
insert_checked t (err e) = (t, err e)

-- enabled = 1 AND next_at <= ?
abbrev pub is_due : ℕ → ScheduleRow → Bool
is_due at r = r.enabled && leb r.next_at (stamp at)

-- ORDER BY next_at, id
abbrev pub due_before : ScheduleRow → ScheduleRow → Bool
due_before r s = ltb r.next_at s.next_at || (r.next_at == s.next_at && ltb r.id s.id)

unfoldable pub take : ℕ → Table → Table
take zero t = []
take (suc n) [] = []
take (suc n) (r ∷ t) = r ∷ take n t

-- Due
unfoldable pub due : Table → ℕ → ℕ → Table
unfolding take
due t at limit =
    take (if limit == 0 then 50 else limit) (sort_by due_before (Prelude.filter (is_due at) t))

-- List
unfoldable pub list : Table → ℕ → Table
unfolding text_ltb
list t workspace_id =
    sort_by (λ r s. text_ltb r.name s.name) (Prelude.filter (λ r. r.workspace_id == workspace_id) t)

-- the row that Advance writes
unfoldable pub advanced : ℕ → ℕ → Text → Option ℕ → ScheduleRow → ScheduleRow
unfolding text_eq
advanced at next outcome work_id r = record r {
  next_at = stamp next;
  last_work_id = work_id;
  last_fired_at = some (stamp at);
  last_outcome = outcome;
  fires = (if text_eq outcome (codes "skipped") then r.fires else r.fires + 1);
  skips = (if text_eq outcome (codes "skipped") then r.skips + 1 else r.skips);
  updated_at = stamp at;
}

-- WHERE id = ? AND next_at = ?
abbrev pub still_at : ℕ → ℕ → ScheduleRow → Bool
still_at id seen r = r.id == id && r.next_at == seen

-- Advance, of the schedule `id` that was read with `seen` as its next firing
unfoldable pub advance : Table → ℕ → ℕ → ℕ → ℕ → Text → Option ℕ → Table × Bool
unfolding advanced update_if
advance t at id seen next outcome work_id = (
  update_if (still_at id seen) (advanced at next outcome work_id) t,
  count (still_at id seen) t == 1,
)

-- NoteUnit
unfoldable pub note_unit : Table → ℕ → ℕ → ℕ → Table
unfolding update_if
note_unit t at id unit_id =
    update_if (has_schedule_id id)
      (λ r. record r { last_work_id = some unit_id; updated_at = stamp at }) t

-- Delete
unfoldable pub delete : Table → ℕ → Table × Returned (Unit {0})
delete t id =
    if any (has_schedule_id id) t
    then (Prelude.filter (λ r. not (has_schedule_id id r)) t, ok tt)
    else (t, err not_found)

-- ON DELETE: a task takes its schedules with it, an agent or a gear leaves them without a target
unfoldable pub drop_task : Table → ℕ → Table
drop_task t id = Prelude.filter (λ r. not (elim r.task_id [ none ↦ false | some n ↦ n == id ])) t

abbrev pub unless_id : ℕ → Option ℕ → Option ℕ
unless_id id none = none
unless_id id (some n) = if n == id then none else some n

unfoldable pub drop_agent : Table → ℕ → Table
unfolding update_if
drop_agent t id =
    update_if (λ r. true) (λ r. record r { target_agent_id = unless_id id r.target_agent_id }) t

unfoldable pub drop_gear : Table → ℕ → Table
unfolding update_if
drop_gear t id =
    update_if (λ r. true) (λ r. record r { target_gear_id = unless_id id r.target_gear_id }) t

-- UPDATE schedules, with the index on the names: no other row may have the new name
abbrev pub clashes : ScheduleRow → ScheduleRow → Bool
clashes r s = same_name r s && not (s.id == r.id)

unfoldable pub rewrite : Table → ScheduleRow → Table × Returned ScheduleRow
unfolding same_name update_if
rewrite t r =
    if any (clashes r) t
    then (t, err conflict)
    else (update_if (has_schedule_id r.id) (λ _. r) t, ok r)

abbrev pub rewrite_checked : Table → Returned ScheduleRow → Table × Returned ScheduleRow
rewrite_checked t (ok r) = rewrite t r
rewrite_checked t (err e) = (t, err e)

-- the sentence for an agent; on another target the one that is there
unfoldable pub new_instruction : ScheduleRow → Text → Returned Text
unfolding text_eq first_set trim_space
new_instruction old sent =
    if text_eq old.target_kind agent_kind
    then (if is_empty (trim_space (first_set sent old.instruction))
        then err no_instruction
        else ok (first_set sent old.instruction))
    else ok old.instruction

-- the fields of a new schedule that Create fills in
abbrev pub defaulted : ScheduleRow → ScheduleRow
defaulted r = record r {
  name = trim_space r.name;
  on_miss = or_skip r.on_miss;
  payload = or_braces r.payload;
  args = or_braces r.args;
}

module _ (fraction : Text → ℕ → ℕ) (location : Text → Option Calendar) where
  -- Create, up to the INSERT
  unfoldable pub checked : ℕ → ScheduleRow → Returned ScheduleRow
  unfolding parse next trim_space valid_on_miss valid_target new_row
  checked at r = do
    spec ← parsed (parse fraction r.spec)
    cal ← or_fault unknown_zone (location r.tz)
    guard (not (is_empty (trim_space r.name))) no_name
    guard (valid_on_miss (or_skip r.on_miss)) bad_on_miss
    target ← valid_target (defaulted r)
    first ← or_fault never_due (next spec at cal)
    ok (new_row at target spec.text first)

  unfoldable pub create : Table → ℕ → ScheduleRow → Table × Returned ScheduleRow
  unfolding checked insert
  create t at r = insert_checked t (checked at r)

  -- Update, up to the UPDATE
  unfoldable pub edited : ℕ → ScheduleRow → ScheduleRow → Returned ScheduleRow
  unfolding parse next trim_space first_set valid_on_miss new_instruction
  edited at old new = do
    spec ← parsed (parse fraction (first_set new.spec old.spec))
    cal ← or_fault unknown_zone (location new.tz)
    guard (not (is_empty (trim_space (first_set new.name old.name)))) no_name
    guard (valid_on_miss (first_set new.on_miss old.on_miss)) bad_on_miss
    instruction ← new_instruction old new.instruction
    first ← or_fault never_due (next spec at cal)
    ok (record old {
      name = trim_space (first_set new.name old.name);
      spec = spec.text;
      tz = new.tz;
      payload = first_set (trim_space new.payload) old.payload;
      args = first_set (trim_space new.args) old.args;
      instruction = instruction;
      on_miss = first_set new.on_miss old.on_miss;
      next_at = stamp first;
      updated_at = stamp at;
    })

  unfoldable pub update : Table → ℕ → ℕ → ScheduleRow → Table × Returned ScheduleRow
  unfolding get edited rewrite
  update t at id new = rewrite_checked t (get t id >>= λ old. edited at old new)

  abbrev pub rebased : ScheduleRow → Option ℕ → ℕ
  rebased r none = r.next_at
  rebased r (some t) = stamp t

  -- SetEnabled, up to the UPDATE
  unfoldable pub switched : ℕ → Bool → ScheduleRow → Returned ScheduleRow
  unfolding parse next
  switched at false r = ok (record r { enabled = false; updated_at = stamp at })
  switched at true r = do
    spec ← parsed (parse fraction r.spec)
    cal ← or_fault unknown_zone (location r.tz)
    ok (record r { enabled = true; next_at = rebased r (next spec at cal); updated_at = stamp at })

  abbrev pub write_switched : Table → ℕ → Returned ScheduleRow → Table × Returned ScheduleRow
  write_switched t id (ok r) = (update_if (has_schedule_id id) (λ _. r) t, ok r)
  write_switched t id (err e) = (t, err e)

  unfoldable pub set_enabled : Table → ℕ → ℕ → Bool → Table × Returned ScheduleRow
  unfolding get switched update_if
  set_enabled t at id on = write_switched t id (get t id >>= switched at on)
