-- ===== src/Schedule/Targets.antt =====
-- What validTarget accepts names the target of its kind, and nothing else.
use cogitorium.Prelude.{
  ℕ, ◌≡◌, refl, Bool, true, false, not, Option, none, some, arith, inl, inr, Bool-cases, text_eq,
  text_eq→eq, is_empty, trim_space,
}
use cogitorium.Schedule.Spec
use cogitorium.Schedule.Spec.{Spec, parse}
use cogitorium.Schedule.Table.{
  ScheduleRow, Fault, no_task, no_agent, no_gear, no_instruction, Returned, ok, err, ◌>>=◌, guard,
  parsed, or_fault, is_set, task_kind, agent_kind, gear_kind, on_task, on_agent, on_gear,
  valid_target,
}

pub >>=-ok {ℓ κ} :
    {Row : Type ℓ} {Next : Type κ} (step : Returned Row) (then_do : Row → Returned Next)
    {out : Next}
    → (step >>= then_do) ≡ ok out
    → (row : Row) × (step ≡ ok row) × (then_do row ≡ ok out)
>>=-ok (err fault) then_do h = cc
>>=-ok (ok row) then_do h = (row, refl, h)

pub parsed-ok : (r : Spec.Result Spec) {s : Spec} → parsed r ≡ ok s → r ≡ Spec.ok s
parsed-ok (Spec.ok s) h = ground arith
parsed-ok (Spec.err e) h = cc

pub or_fault-ok {ℓ} :
    {A : Type ℓ} (e : Fault) (o : Option A) {a : A} → or_fault e o ≡ ok a → o ≡ some a
or_fault-ok e none h = cc
or_fault-ok e (some a) h = ground arith

pub guard-ok : (b : Bool) (e : Fault) {u : Unit {0}} → guard b e ≡ ok u → b ≡ true
guard-ok true e h = refl
guard-ok false e h = cc

-- What a row on its own kind of target names, and nothing else.
pub data NamesTarget (r : ScheduleRow) : Type 0 where
  a_task :
      (id : ℕ)
      → r.target_kind ≡ task_kind
      → r.task_id ≡ some id
      → r.target_agent_id ≡ none
      → r.target_gear_id ≡ none
      → NamesTarget r
  an_agent :
      (id : ℕ)
      → r.target_kind ≡ agent_kind
      → r.target_agent_id ≡ some id
      → r.task_id ≡ none
      → r.target_gear_id ≡ none
      → is_empty (trim_space r.instruction) ≡ false
      → NamesTarget r
  a_gear :
      (id : ℕ)
      → r.target_kind ≡ gear_kind
      → r.target_gear_id ≡ some id
      → r.task_id ≡ none
      → r.target_agent_id ≡ none
      → NamesTarget r

is_set-some : (o : Option ℕ) → is_set o ≡ true → (n : ℕ) × (o ≡ some n)
is_set-some none h = cc
is_set-some (some n) h = (n, refl)

on_task-NamesTarget : (r : ScheduleRow) {s : ScheduleRow} → on_task r ≡ ok s → NamesTarget s
unfolding on_task
on_task-NamesTarget r {s} h =
    let (_, g, e) = >>=-ok (guard (is_set r.task_id) no_task) _ h in
    let (id, q) = is_set-some r.task_id (guard-ok _ no_task g) in
    a_task id (ground arith) (ground arith) (ground arith) (ground arith)

on_agent-NamesTarget :
    (r : ScheduleRow) {s : ScheduleRow}
    → r.target_kind ≡ agent_kind
    → on_agent r ≡ ok s
    → NamesTarget s
unfolding on_agent
on_agent-NamesTarget r {s} k h =
    let (_, g, h1) = >>=-ok (guard (is_set r.target_agent_id) no_agent) _ h in
    let (_, i, e) =
      >>=-ok (guard (not (is_empty (trim_space r.instruction))) no_instruction) _ h1 in
    let (id, q) = is_set-some r.target_agent_id (guard-ok _ no_agent g) in
    let said = guard-ok _ no_instruction i in
    let same : s ≡ record r { task_id = none; target_gear_id = none } = ground arith in
    an_agent id (rw same k) (rw same q) (rw same refl) (rw same refl) (rw same (ground arith))

on_gear-NamesTarget :
    (r : ScheduleRow) {s : ScheduleRow}
    → r.target_kind ≡ gear_kind
    → on_gear r ≡ ok s
    → NamesTarget s
unfolding on_gear
on_gear-NamesTarget r {s} k h =
    let (_, g, e) = >>=-ok (guard (is_set r.target_gear_id) no_gear) _ h in
    let (id, q) = is_set-some r.target_gear_id (guard-ok _ no_gear g) in
    a_gear id (ground arith) (ground arith) (ground arith) (ground arith)

pub valid_target-NamesTarget :
    (r : ScheduleRow) {s : ScheduleRow} → valid_target r ≡ ok s → NamesTarget s
unfolding valid_target
valid_target-NamesTarget r h = elim (Bool-cases (is_empty r.target_kind)) [
  | inl e ↦ on_task-NamesTarget r (rw e at h)
  | inr e ↦ elim (Bool-cases (text_eq r.target_kind task_kind)) [
    | inl k ↦ on_task-NamesTarget r (rw (e, k) at h)
    | inr k ↦ elim (Bool-cases (text_eq r.target_kind agent_kind)) [
      | inl m ↦ on_agent-NamesTarget r (text_eq→eq _ _ m) (rw (e, k, m) at h)
      | inr m ↦ elim (Bool-cases (text_eq r.target_kind gear_kind)) [
        | inl n ↦ on_gear-NamesTarget r (text_eq→eq _ _ n) (rw (e, k, m, n) at h)
        | inr n ↦ absurd (cc (rw (e, k, m, n) at h))
      ]
    ]
  ]
]
