-- ===== src/Schedule/Table.antt =====
-- The table of schedules (internal/store/migrations/0024 and 0031) and the rules for one row in
-- internal/schedule/store.go: validTarget, Broken, firstSet. A time of the table is whole seconds.
use cogitorium.Prelude.{
  ℕ, suc, ◌/◌, Bool, true, false, not, ◌&&◌, ◌||◌, Option, none, some, List, [], ◌∷◌, leb, ◌==◌,
  if◌then◌else◌, Text, codes, text_eq, is_empty, trim_space,
}
use cogitorium.Schedule.Spec
use cogitorium.Schedule.Spec.{Spec}

pub record ScheduleRow : Type 0 where
  pub id : ℕ
  pub workspace_id : ℕ
  pub target_kind : Text
  pub task_id : Option ℕ
  pub target_agent_id : Option ℕ
  pub target_gear_id : Option ℕ
  pub instruction : Text
  pub args : Text
  pub name : Text
  pub spec : Text
  pub tz : Text
  pub payload : Text
  pub enabled : Bool
  pub on_miss : Text
  pub next_at : ℕ
  pub last_work_id : Option ℕ
  pub last_fired_at : Option ℕ
  pub last_outcome : Text
  pub fires : ℕ
  pub skips : ℕ
  pub created_at : ℕ
  pub updated_at : ℕ

abbrev pub Table : Type 0
Table = List ScheduleRow

pub data Fault : Type 0 where
  bad_spec : Spec.Err → Fault
  unknown_zone no_name bad_on_miss no_task no_agent no_instruction no_gear bad_kind : Fault
  never_due conflict not_found : Fault

pub data Returned {ℓ} (A : Type ℓ) : Type ℓ where
  ok : A → Returned A
  err : Fault → Returned A

-- a condition of the row, and the fault where it fails
abbrev pub guard : Bool → Fault → Returned (Unit {0})
guard holds fault = if holds then ok tt else err fault

infixl 5 ◌>>=◌
abbrev pub ◌>>=◌ {ℓ κ} :
    {Row : Type ℓ} {Next : Type κ} → Returned Row → (Row → Returned Next) → Returned Next
err fault >>= then_do = err fault
ok row >>= then_do = then_do row

infixl 5 ◌>>◌
abbrev pub ◌>>◌ {κ} : {Next : Type κ} → Returned (Unit {0}) → Returned Next → Returned Next
checked >> rest = checked >>= λ _. rest

-- what Parse gives, as an error of the store
abbrev pub parsed : Spec.Result Spec → Returned Spec
parsed (Spec.ok s) = ok s
parsed (Spec.err e) = err (bad_spec e)

-- what Location and Next give, as an error of the store
abbrev pub or_fault {ℓ} : {A : Type ℓ} → Fault → Option A → Returned A
or_fault e none = err e
or_fault e (some a) = ok a

-- stamp, of nanoseconds
abbrev pub stamp : ℕ → ℕ
stamp t = t / 1000000000

abbrev pub task_kind : Text
task_kind = codes "task"

abbrev pub agent_kind : Text
agent_kind = codes "agent"

abbrev pub gear_kind : Text
gear_kind = codes "gear"

abbrev pub is_set : Option ℕ → Bool
is_set none = false
is_set (some n) = true

unfoldable pub on_task : ScheduleRow → Returned ScheduleRow
on_task r = do
  guard (is_set r.task_id) no_task
  ok (record r {
    target_kind = task_kind;
    target_agent_id = none;
    target_gear_id = none;
    instruction = [];
  })

unfoldable pub on_agent : ScheduleRow → Returned ScheduleRow
unfolding trim_space
on_agent r = do
  guard (is_set r.target_agent_id) no_agent
  guard (not (is_empty (trim_space r.instruction))) no_instruction
  ok (record r { task_id = none; target_gear_id = none })

unfoldable pub on_gear : ScheduleRow → Returned ScheduleRow
on_gear r = do
  guard (is_set r.target_gear_id) no_gear
  ok (record r { task_id = none; target_agent_id = none; instruction = [] })

-- validTarget
unfoldable pub valid_target : ScheduleRow → Returned ScheduleRow
unfolding text_eq on_task on_agent on_gear
valid_target r =
    if is_empty r.target_kind
    then on_task r
    else if text_eq r.target_kind task_kind
    then on_task r
    else if text_eq r.target_kind agent_kind
    then on_agent r
    else if text_eq r.target_kind gear_kind
    then on_gear r
    else err bad_kind

-- Broken
unfoldable pub broken : ScheduleRow → Bool
unfolding text_eq
broken r =
    if text_eq r.target_kind agent_kind
    then not (is_set r.target_agent_id)
    else if text_eq r.target_kind gear_kind
    then not (is_set r.target_gear_id)
    else false

unfoldable pub valid_on_miss : Text → Bool
unfolding text_eq
valid_on_miss t = text_eq t (codes "skip") || text_eq t (codes "run")

-- firstSet
unfoldable pub first_set : Text → Text → Text
unfolding trim_space
first_set sent existing = if is_empty (trim_space sent) then existing else sent

abbrev pub has_schedule_id : ℕ → ScheduleRow → Bool
has_schedule_id id r = r.id == id

-- `idx_schedules_name`
unfoldable pub same_name : ScheduleRow → ScheduleRow → Bool
unfolding text_eq
same_name r s = r.workspace_id == s.workspace_id && text_eq r.name s.name

abbrev pub larger_id : ScheduleRow → ℕ → ℕ
larger_id r m = if leb r.id m then m else r.id

unfoldable pub last_id : Table → ℕ
last_id [] = 0
last_id (r ∷ t) = larger_id r (last_id t)

-- `INTEGER PRIMARY KEY`: one more than the largest in the table
unfoldable pub next_schedule_id : Table → ℕ
unfolding last_id
next_schedule_id t = suc (last_id t)
