-- ===== src/Planboard/Position.antt =====
-- internal/planboard/position.go: bindings, and the position of each in its plan. The workspace and
-- the agent that a binding names are taken to exist.
use cogitorium.Prelude.{
  ℕ, ◌+◌, Bool, true, false, not, ◌&&◌, ◌||◌, Option, none, some, List, [], ◌∷◌, ◌++◌, ◌==◌, ltb,
  if◌then◌else◌, Text, any, filter, find?, update_if,
}
use cogitorium.Planboard.Rows.{
  Mode, resume, restart, Err, empty, not_found, out_of_range, storage, Result, ok, err, Step,
  Binding, StateRow, Db, has_plan_id, has_binding_id, of_binding, plan_of, step_count,
  next_binding_id,
}

abbrev pub same_agent : Option ℕ → Option ℕ → Bool
same_agent none none = true
same_agent none (some b) = false
same_agent (some a) none = false
same_agent (some a) (some b) = a == b

abbrev pub attaches : ℕ → ℕ → Option ℕ → Binding → Bool
attaches plan workspace agent b =
    b.planboard_id == plan && b.workspace_id == workspace && same_agent b.agent_id agent

abbrev pub found : Option Binding → Result Binding
found none = err not_found
found (some b) = ok b

-- `binding`
unfoldable pub binding : Db → ℕ → ℕ → Option ℕ → Result Binding
binding db plan workspace agent = found (find? (attaches plan workspace agent) db.bindings)

-- Bind: a second time is the same attachment; a plan that is not there violates its foreign key
unfoldable pub bind : Db → ℕ → ℕ → Option ℕ → Db × Result Binding
unfolding binding
bind db plan workspace agent =
    if any (attaches plan workspace agent) db.bindings
    then (db, binding db plan workspace agent)
    else if not (any (has_plan_id plan) db.plans)
    then (db, err storage)
    else let new : Binding = record {
      id = next_binding_id db;
      planboard_id = plan;
      workspace_id = workspace;
      agent_id = agent;
    } in
      let db' : Db = record db { bindings = db.bindings ++ new ∷ [] } in
      (db', binding db' plan workspace agent)

abbrev pub drop_binding : Db → Result Binding → Db × Option Err
drop_binding db (err e) = (db, some e)
drop_binding db (ok b) = (
  record db {
    bindings = filter (λ c. not (has_binding_id b.id c)) db.bindings;
    states = filter (λ s. not (of_binding b.id s)) db.states;
  },
  none,
)

-- Unbind: the position goes with the binding
unfoldable pub unbind : Db → ℕ → ℕ → Option ℕ → Db × Option Err
unfolding binding
unbind db plan workspace agent = drop_binding db (binding db plan workspace agent)

abbrev pub first_state : ℕ → Text → StateRow
first_state id now = record {
  binding_id = id;
  step = 1;
  cycle = 0;
  blocked_note = [];
  updated_at = now;
}

-- `state`: the position, begun at step one on first sight
unfoldable pub state : Db → ℕ → Text → Db × Result StateRow
state db id now = elim (find? (of_binding id) db.states) [
  | some s ↦ (db, ok s)
  | none ↦
      if any (has_binding_id id) db.bindings
      then (record db { states = db.states ++ first_state id now ∷ [] }, ok (first_state id now))
      else (db, err storage)
]

-- what follows a call of `state`, unless it failed
abbrev pub then_with {ℓ} :
    {A : Type ℓ} → Db × Result StateRow → (Db → StateRow → Db × Result A) → Db × Result A
then_with (db, ok s) k = k db s
then_with (db, err e) k = (db, err e)

-- UPDATE planboard_state ... WHERE binding_id = ?
unfoldable pub update_state : ℕ → (StateRow → StateRow) → Db → Db
update_state id f db = record db { states = update_if (of_binding id) f db.states }

-- where Done moves to: the next step, or the first one of the next cycle
unfoldable pub advance : ℕ → StateRow → Text → StateRow
advance n s now =
    if ltb n (s.step + 1)
    then record s { step = 1; cycle = s.cycle + 1; blocked_note = []; updated_at = now }
    else record s { step = s.step + 1; blocked_note = []; updated_at = now }

abbrev pub moved_to : StateRow → StateRow → StateRow
moved_to target s = record s {
  step = target.step;
  cycle = target.cycle;
  blocked_note = [];
  updated_at = target.updated_at;
}

-- Done
unfoldable pub done : Db → ℕ → Text → Db × Result StateRow
unfolding update_state
done db id now = then_with (state db id now) λ db' s.
    if step_count db' id == 0 then (db', err empty) else (
      update_state id (moved_to (advance (step_count db' id) s now)) db',
      ok (advance (step_count db' id) s now),
    )

-- Blocked: the position stays, the reason is kept
unfoldable pub blocked : Db → ℕ → Text → Text → Db × Result StateRow
unfolding update_state
blocked db id reason now = then_with (state db id now) λ db' s. (
  update_state id (λ r. record r { blocked_note = reason; updated_at = now }) db',
  ok (record s { blocked_note = reason }),
)

abbrev pub at_step : ℕ → Text → StateRow → StateRow
at_step n now s = record s { step = n; blocked_note = []; updated_at = now }

-- Reset: step one, the cycle count untouched
unfoldable pub reset : Db → ℕ → Text → Db × Result StateRow
unfolding update_state
reset db id now =
    then_with (state db id now) λ db' s. state (update_state id (at_step 1 now) db') id now

-- Seek: out of range is refused, not clamped
unfoldable pub seek : Db → ℕ → ℕ → Text → Db × Result StateRow
unfolding update_state
seek db id n now =
    if ltb n 1 || ltb (step_count db id) n
    then (db, err out_of_range)
    else then_with (state db id now) λ db' s. state (update_state id (at_step n now) db') id now

abbrev pub restored : ℕ → ℕ → Text → StateRow → StateRow
restored n cycle now s = record s { step = n; cycle = cycle; updated_at = now }

-- an update after a call of `state`, unless that failed
abbrev pub then_update : Db × Result StateRow → (Db → Db) → Db × Option Err
then_update (db, ok s) f = (f db, none)
then_update (db, err e) f = (db, some e)

-- SetState, for a rollback: a step below one is one, and no step is too large
unfoldable pub set_state : Db → ℕ → ℕ → ℕ → Text → Db × Option Err
unfolding update_state
set_state db id n cycle now =
    then_update (state db id now) (update_state id (restored (if ltb n 1 then 1 else n) cycle now))

-- the plan's mode, by the join of BeginRun
unfoldable pub mode_of_binding : Db → ℕ → Option Mode
mode_of_binding db id = elim (plan_of db id) [
  | none ↦ none
  | some plan ↦ elim (find? (has_plan_id plan) db.plans) [ none ↦ none | some p ↦ some p.mode ]
]

abbrev pub begin_in_mode : Db → ℕ → Text → Option Mode → Db × Option Err
begin_in_mode db id now none = (db, some storage)
begin_in_mode db id now (some resume) = (db, none)
begin_in_mode db id now (some restart) =
    then_update (state db id now) (update_state id (at_step 1 now))

-- BeginRun: only `restart` does anything
unfoldable pub begin_run : Db → ℕ → Text → Db × Option Err
unfolding mode_of_binding update_state
begin_run db id now = begin_in_mode db id now (mode_of_binding db id)

-- stepAt
unfoldable pub step_at : List Step → ℕ → Option Step
step_at steps ordinal = find? (λ s. s.ordinal == ordinal) steps
