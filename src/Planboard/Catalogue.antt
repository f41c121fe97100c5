-- ===== src/Planboard/Catalogue.antt =====
-- internal/planboard/planboard.go: Save and Delete, each one transaction.
use cogitorium.Prelude.{
  ℕ, zero, suc, ◌+◌, Bool, not, ◌&&◌, Option, none, some, List, [], ◌∷◌, ◌++◌, ◌==◌, ltb,
  if◌then◌else◌, Text, text_eq, trim_space, is_empty, any, count, filter, find?, length, update_if,
}
use cogitorium.Planboard.Rows.{
  Mode, Err, invalid_name, invalid_mode, empty, not_found, Result, err, Plan, Step, StepRow,
  StateRow, Db, Planboard, mode_of, valid_name, has_plan_id, of_plan, next_plan_id, get,
}

-- clean: steps with no title are dropped
unfoldable pub clean : List Step → List Step
clean [] = []
clean (s ∷ rest) =
    let more = clean rest in
    let title = trim_space s.title in
    if is_empty title then more else record s { title = title; body = trim_space s.body } ∷ more

-- the loop that inserts the steps, numbered from `ordinal`
unfoldable pub number_steps : ℕ → ℕ → List Step → List StepRow
number_steps id ordinal [] = []
number_steps id ordinal (s ∷ rest) =
    record { planboard_id = id; step = record s { ordinal = ordinal } }
    ∷ number_steps id (ordinal + 1) rest

-- an id as Save stores it: 0 is NULL
abbrev pub origin : ℕ → Option ℕ
origin zero = none
origin (suc n) = some (suc n)

-- What a caller hands to Save, with the time of the call.
pub record Draft : Type 0 where
  pub name : Text
  pub description : Text
  pub tags : List Text
  pub mode : Text
  pub steps : List Step
  pub workspace_id : ℕ
  pub agent_id : ℕ
  pub now : Text

abbrev pub plan_row : Draft → Text → Mode → ℕ → Plan
plan_row d name m id = record {
  id = id;
  name = name;
  description = d.description;
  tags = d.tags;
  mode = m;
  origin_workspace_id = origin d.workspace_id;
  created_by_agent_id = origin d.agent_id;
  updated_at = d.now;
}

-- the row's new content where the name is known already: its origin stays
abbrev pub rewritten : Draft → Mode → Plan → Plan
rewritten d m p = record p {
  description = d.description;
  tags = d.tags;
  mode = m;
  updated_at = d.now;
}

-- DELETE and INSERT of the plan's steps
unfoldable pub replace_steps : ℕ → List Step → Db → Db
replace_steps id new db = record db {
  steps = filter (λ s. not (of_plan id s)) db.steps ++ number_steps id 1 new;
}

-- whether the state's binding is one of the plan's
abbrev pub bound_to : Db → ℕ → StateRow → Bool
bound_to db id s = any (λ b. b.id == s.binding_id && b.planboard_id == id) db.bindings

-- UPDATE planboard_state SET step = n WHERE step > n: positions past the end go to the last step
unfoldable pub clamp : ℕ → ℕ → Text → Db → Db
clamp id n now db = record db {
  states =
      update_if (λ s. ltb n s.step && bound_to db id s)
        (λ s. record s { step = n; updated_at = now }) db.states;
}

-- the transaction, on the id that the name has or gets
unfoldable pub write_plan : Draft → Text → Mode → List Step → Db → Db × ℕ
write_plan d name m new db = elim (find? (λ p. text_eq p.name name) db.plans) [
  | some p ↦ (
    clamp p.id (length new) d.now (
        replace_steps p.id new
          (record db { plans = update_if (has_plan_id p.id) (rewritten d m) db.plans })),
    p.id,
  )
  | none ↦
      let id = next_plan_id db in
      (
        clamp id (length new) d.now
            (replace_steps id new (record db { plans = db.plans ++ plan_row d name m id ∷ [] })),
        id,
      )
]

abbrev pub saved : Db × ℕ → Db × Result Planboard
saved (db, id) = (db, get db id)

unfoldable pub save : Db → Draft → Db × Result Planboard
unfolding write_plan
save db d =
    let name = trim_space d.name in
    if not (valid_name name) then (db, err invalid_name) else elim (mode_of d.mode) [
      | none ↦ (db, err invalid_mode)
      | some m ↦
          let new = clean d.steps in
          if length new == 0 then (db, err empty) else saved (write_plan d name m new db)
    ]

-- Delete: the foreign keys take the plan's steps and bindings, and the bindings' positions, along
unfoldable pub delete : Db → ℕ → Db × Option Err
delete db id = if count (has_plan_id id) db.plans == 0 then (db, some not_found) else (
  record {
    plans = filter (λ p. not (has_plan_id id p)) db.plans;
    steps = filter (λ s. not (of_plan id s)) db.steps;
    bindings = filter (λ b. not (b.planboard_id == id)) db.bindings;
    states = filter (λ s. not (bound_to db id s)) db.states;
  },
  none,
)
