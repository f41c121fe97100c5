-- ===== src/Planboard/Active.antt =====
-- internal/planboard/position.go: Active and BeginRunFor, what an agent works by when a run begins.
use cogitorium.Prelude.{
  ℕ, ◌≡◌, Bool, true, ◌&&◌, Option, none, some, List, [], ◌∷◌, ◌++◌, ◌==◌, Text, text_ltb, filter,
  find?, find?-sound, sort_by, All, All-append, ==_iff, Option-cases, inl, inr,
}
use cogitorium.Planboard.Rows.{
  Err, Result, ok, err, Step, Binding, StateRow, Db, Planboard, has_plan_id, get,
}
use cogitorium.Planboard.Position.{state, step_at, begin_run}
use cogitorium.Planboard.Bounds.{WellFormed, state-WellFormed}
use cogitorium.Planboard.Moves.{begin_run-WellFormed}

pub record Assignment : Type 0 where
  pub planboard : Planboard
  pub binding : Binding
  pub state : StateRow
  pub current : Step

-- the name that the join gives a binding
unfoldable pub plan_name : Db → Binding → Text
plan_name db b = elim (find? (has_plan_id b.planboard_id) db.plans) [ none ↦ [] | some p ↦ p.name ]

abbrev pub shared_or_own : ℕ → Option ℕ → Bool
shared_or_own agent none = true
shared_or_own agent (some a) = a == agent

-- b.workspace_id = ? AND (b.agent_id IS NULL OR b.agent_id = ?) ORDER BY p.name
unfoldable pub bindings_for : Db → ℕ → ℕ → List Binding
unfolding plan_name
bindings_for db workspace agent =
    sort_by (λ a b. text_ltb (plan_name db a) (plan_name db b))
      (filter (λ b. b.workspace_id == workspace && shared_or_own agent b.agent_id) db.bindings)

-- a step at the position, or a binding that is passed over
abbrev pub assign : Planboard → Binding → StateRow → Option Step → List Assignment
assign p b s none = []
assign p b s (some cur) = record { planboard = p; binding = b; state = s; current = cur } ∷ []

abbrev pub active_read :
    (Db → List Assignment → Db × Result (List Assignment))
    → List Assignment
    → Planboard
    → Binding
    → Db × Result StateRow
    → Db × Result (List Assignment)
active_read next out p b (db, err e) = (db, err e)
active_read next out p b (db, ok s) = next db (out ++ assign p b s (step_at p.steps s.step))

abbrev pub active_plan :
    (Db → List Assignment → Db × Result (List Assignment))
    → Db
    → Text
    → List Assignment
    → Binding
    → Result Planboard
    → Db × Result (List Assignment)
active_plan next db now out b (err e) = (db, err e)
active_plan next db now out b (ok p) = active_read next out p b (state db b.id now)

-- the loop over the bindings, with what it has found so far
unfoldable pub active_loop :
    List Binding → Text → Db → List Assignment → Db × Result (List Assignment)
active_loop [] now db out = (db, ok out)
active_loop (b ∷ rest) now db out =
    active_plan (λ db' out'. active_loop rest now db' out') db now out b (get db b.planboard_id)

-- Active
unfoldable pub active : Db → ℕ → ℕ → Text → Db × Result (List Assignment)
unfolding bindings_for active_loop
active db workspace agent now = active_loop (bindings_for db workspace agent) now db []

abbrev pub begin_next : (Db → Db × Option Err) → Db × Option Err → Db × Option Err
begin_next next (db, some e) = (db, some e)
begin_next next (db, none) = next db

unfoldable pub begin_all : List Assignment → Text → Db → Db × Option Err
begin_all [] now db = (db, none)
begin_all (a ∷ rest) now db =
    begin_next (λ db'. begin_all rest now db') (begin_run db a.binding.id now)

abbrev pub begin_found : Text → Db × Result (List Assignment) → Db × Option Err
begin_found now (db, err e) = (db, some e)
begin_found now (db, ok found) = begin_all found now db

-- BeginRunFor
unfoldable pub begin_run_for : Db → ℕ → ℕ → Text → Db × Option Err
begin_run_for db workspace agent now = begin_found now (active db workspace agent now)

-- What Active hands out: the step whose ordinal is the position.
abbrev pub InFront : Assignment → Type 0
InFront a = a.current.ordinal ≡ a.state.step

abbrev pub Found : Db × Result (List Assignment) → Type 0
Found (db, ok found) = WellFormed db × All InFront found
Found (db, err e) = WellFormed db

assign-InFront :
    (p : Planboard) (b : Binding) (s : StateRow)
    → All InFront (assign p b s (step_at p.steps s.step))
unfolding step_at
assign-InFront p b s = elim (Option-cases (step_at p.steps s.step)) [
  | inl e ↦ rw e tt
  | inr (cur, e) ↦
      rw e
        ((==_iff cur.ordinal s.step).0 ((find?-sound (λ c. c.ordinal == s.step) p.steps e).1), tt)
]

active_read-Found :
    (next : Db → List Assignment → Db × Result (List Assignment)) (out : List Assignment)
    (p : Planboard) (b : Binding) (r : Db × Result StateRow)
    → ((db : Db) (out : List Assignment) → WellFormed db → All InFront out → Found (next db out))
    → WellFormed r.0
    → All InFront out
    → Found (active_read next out p b r)
active_read-Found next out p b (db, err e) k w h = w
active_read-Found next out p b (db, ok s) k w h =
    k db _ w (All-append InFront out _ h (assign-InFront p b s))

active_plan-Found :
    (next : Db → List Assignment → Db × Result (List Assignment)) (db : Db) (now : Text)
    (out : List Assignment) (b : Binding) (r : Result Planboard)
    → ((db : Db) (out : List Assignment) → WellFormed db → All InFront out → Found (next db out))
    → WellFormed db
    → All InFront out
    → Found (active_plan next db now out b r)
active_plan-Found next db now out b (err e) k w h = w
active_plan-Found next db now out b (ok p) k w h =
    active_read-Found next out p b (state db b.id now) k (state-WellFormed db b.id now w) h

active_loop-Found :
    (bs : List Binding) (now : Text) (db : Db) (out : List Assignment)
    → WellFormed db
    → All InFront out
    → Found (active_loop bs now db out)
unfolding active_loop
active_loop-Found [] now db out w h = (w, h)
active_loop-Found (b ∷ rest) now db out w h =
    active_plan-Found _ db now out b (get db b.planboard_id)
      (λ db' out'. active_loop-Found rest now db' out') w h

pub active-Found :
    (db : Db) (workspace agent : ℕ) (now : Text)
    → WellFormed db
    → Found (active db workspace agent now)
unfolding active
active-Found db workspace agent now w =
    active_loop-Found (bindings_for db workspace agent) now db [] w tt

begin_all-WellFormed :
    (found : List Assignment) (now : Text) (db : Db)
    → WellFormed db
    → WellFormed (begin_all found now db).0
unfolding begin_all
begin_all-WellFormed [] now db w = w
begin_all-WellFormed (a ∷ rest) now db w =
    next_keeps (begin_run db a.binding.id now) (begin_run-WellFormed db a.binding.id now w)
      (λ db'. begin_all-WellFormed rest now db')
  where
    next_keeps :
        (r : Db × Option Err)
        → WellFormed r.0
        → ((db' : Db) → WellFormed db' → WellFormed (begin_all rest now db').0)
        → WellFormed (begin_next (λ db'. begin_all rest now db') r).0
    next_keeps (db', some e) v k = v
    next_keeps (db', none) v k = k db' v

begin_found-WellFormed :
    (now : Text) (r : Db × Result (List Assignment)) → Found r → WellFormed (begin_found now r).0
begin_found-WellFormed now (db, err e) w = w
begin_found-WellFormed now (db, ok found) h = begin_all-WellFormed found now db h.0

-- The start of a run, over all the plans in front of an agent, keeps every position at a step.
pub begin_run_for-WellFormed :
    (db : Db) (workspace agent : ℕ) (now : Text)
    → WellFormed db
    → WellFormed (begin_run_for db workspace agent now).0
unfolding begin_run_for
begin_run_for-WellFormed db workspace agent now w =
    begin_found-WellFormed now (active db workspace agent now)
      (active-Found db workspace agent now w)
