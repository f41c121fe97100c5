-- ===== src/Planboard/Served.antt =====
-- What Active (internal/planboard/position.go) hands an agent.
use cogitorium.Prelude.{ℕ, ◌≡◌, Bool, none, some, List, Text, Memᴰ, ◌⊎◌, ◌==◌, ◌&&◌, text_ltb}
use cogitorium.Planboard.Rows.{Result, ok, err, Binding, Db, Planboard, steps, get}
use cogitorium.Planboard.Bounds.{WellFormed}
use cogitorium.Planboard.Active.{Assignment, active, shared_or_own, plan_name, Found, active-Found}
use cogitorium.Planboard.Fronts.{row_of}

-- A binding of the workspace, for every agent or for this one.
pub record Concerns (db : Db) (workspace agent : ℕ) (b : Binding) : Type 0 where
  pub there : Memᴰ b db.bindings
  pub here : b.workspace_id ≡ workspace
  pub mine : (b.agent_id ≡ none) ⊎ (b.agent_id ≡ some agent)

-- What is handed out for a binding: its plan, its position, which is the stored one or, where none
-- is stored, step one of the first cycle, and the step of the plan with the position's number.
pub record Served (db : Db) (workspace agent : ℕ) (now : Text) (a : Assignment) : Type 0 where
  pub concerns : Concerns db workspace agent a.binding
  pub plan : get db a.binding.planboard_id ≡ ok a.planboard
  pub position : a.state ≡ row_of db a.binding.id now
  pub of_plan : Memᴰ a.current a.planboard.steps
  pub in_front : a.current.ordinal ≡ a.state.step

module _ (db : Db) (workspace agent : ℕ) (now : Text) where
  abbrev wanted : Binding → Bool
  wanted b = b.workspace_id == workspace && shared_or_own agent b.agent_id

  abbrev by_name : Binding → Binding → Bool
  by_name a b = text_ltb (plan_name db a) (plan_name db b)

Found-ok : (r : Db × Result (List Assignment)) → Found r → WellFormed r.0
Found-ok (db, err e) h = h
Found-ok (db, ok other) h = h.0

-- Looking keeps a database well-formed.
pub active-WellFormed :
    (db : Db) (workspace agent : ℕ) (now : Text)
    → WellFormed db
    → WellFormed (active db workspace agent now).0
active-WellFormed db workspace agent now w =
    Found-ok (active db workspace agent now) (active-Found db workspace agent now w)
