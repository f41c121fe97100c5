-- ===== src/Planboard/Walk.antt =====
-- Sequences of operations, and how Done walks a plan.
use cogitorium.Prelude.{ℕ, Option, List, [], ◌∷◌, Text}
use cogitorium.Planboard.Rows.{Db}
use cogitorium.Planboard.Catalogue.{Draft, save, delete}
use cogitorium.Planboard.Position.{bind, unbind, state, done, blocked, reset, seek, begin_run}
use cogitorium.Planboard.Bounds.{WellFormed, state-WellFormed}
use cogitorium.Planboard.Edits.{save-WellFormed}
use cogitorium.Planboard.Attach.{delete-WellFormed, bind-WellFormed, unbind-WellFormed}
use cogitorium.Planboard.Active.{begin_run_for, begin_run_for-WellFormed}
use cogitorium.Planboard.Moves.{
  done-WellFormed, blocked-WellFormed, reset-WellFormed, seek-WellFormed, begin_run-WellFormed,
}

-- The operations that write, but SetState.
pub data Op : Type 0 where
  do_save : Draft → Op
  do_delete : ℕ → Op
  do_bind do_unbind : ℕ → ℕ → Option ℕ → Op
  do_done do_reset do_begin_run do_read : ℕ → Text → Op
  do_blocked : ℕ → Text → Text → Op
  do_seek do_begin_run_for : ℕ → ℕ → Text → Op

unfoldable pub step : Db → Op → Db
step db (do_save d) = (save db d).0
step db (do_delete id) = (delete db id).0
step db (do_bind plan workspace agent) = (bind db plan workspace agent).0
step db (do_unbind plan workspace agent) = (unbind db plan workspace agent).0
step db (do_done id now) = (done db id now).0
step db (do_reset id now) = (reset db id now).0
step db (do_begin_run id now) = (begin_run db id now).0
step db (do_read id now) = (state db id now).0
step db (do_blocked id reason now) = (blocked db id reason now).0
step db (do_seek id n now) = (seek db id n now).0
step db (do_begin_run_for workspace agent now) = (begin_run_for db workspace agent now).0

unfoldable pub run : Db → List Op → Db
run db [] = db
run db (op ∷ ops) = run (step db op) ops

step-WellFormed : (db : Db) (op : Op) → WellFormed db → WellFormed (step db op)
unfolding step
step-WellFormed db (do_save d) w = save-WellFormed db d w
step-WellFormed db (do_delete id) w = delete-WellFormed db w id
step-WellFormed db (do_bind plan workspace agent) w = bind-WellFormed db w plan workspace agent
step-WellFormed db (do_unbind plan workspace agent) w = unbind-WellFormed db w plan workspace agent
step-WellFormed db (do_done id now) w = done-WellFormed db id now w
step-WellFormed db (do_reset id now) w = reset-WellFormed db id now w
step-WellFormed db (do_begin_run id now) w = begin_run-WellFormed db id now w
step-WellFormed db (do_read id now) w = state-WellFormed db id now w
step-WellFormed db (do_blocked id reason now) w = blocked-WellFormed db id now w reason
step-WellFormed db (do_seek id n now) w = seek-WellFormed db id now w n
step-WellFormed db (do_begin_run_for workspace agent now) w =
    begin_run_for-WellFormed db workspace agent now w

-- Where every plan has a step, every binding's plan exists and every position points at a step of
-- its plan, no sequence of saves, deletions, bindings, unbindings, run starts and moves of
-- positions (SetState not among them) changes that.
pub run_keeps_positions : (db : Db) (ops : List Op) → WellFormed db → WellFormed (run db ops)
unfolding run
run_keeps_positions db [] w = w
run_keeps_positions db (op ∷ ops) w = run_keeps_positions (step db op) ops (step-WellFormed db op w)
