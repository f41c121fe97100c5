-- ===== src/Planboard/Examples.antt =====
-- The planboards' theorems on a plan of two steps, attached to a workspace.
use cogitorium.Prelude.{
  ℕ, ◌+◌, ◌≡◌, ◌≤◌, refl, none, some, List, [], ◌∷◌, arith, Text, codes, text_eq, trim_space,
  update_if,
}
use cogitorium.Planboard.Rows.{
  restart, ok, Step, Plan, Binding, steps, StateRow, Db, Planboard, mode_of, valid_name, plan_of,
  step_count, next_plan_id, next_binding_id,
}
use cogitorium.Planboard.Catalogue.{
  Draft, clean, number_steps, replace_steps, clamp, write_plan, save,
}
use cogitorium.Planboard.Position.{
  bind, binding, state, advance, done, restored, set_state, step_at,
}
use cogitorium.Planboard.Bounds.{WellFormed}
use cogitorium.Planboard.Walk.{
  Op, do_save, do_bind, do_read, do_done, step, run, run_keeps_positions,
}
use cogitorium.Planboard.Progress.{position, progress, done_advances}
use cogitorium.Planboard.Effects.{set_state_past_end}
use cogitorium.Planboard.Saved.{numbered, Titled, titled, untitled, no_steps, save_reads_back}
use cogitorium.Planboard.Served.{Served}

abbrev nothing_yet : Db
nothing_yet = record { plans = []; steps = []; bindings = []; states = [] }

nothing_yet-WellFormed : WellFormed nothing_yet
nothing_yet-WellFormed = record { plans_full = tt; bound = tt; fits = tt }

abbrev step_of : Text → Step
step_of title = record { ordinal = 0; title = title; body = [] }

-- a release in two steps, with a line that has no title
abbrev release : Draft
release = record {
  name = codes " release ";
  description = [];
  tags = [];
  mode = codes "restart";
  steps = step_of (codes "build") ∷ step_of [] ∷ step_of (codes " ship") ∷ [];
  workspace_id = 7;
  agent_id = 0;
  now = codes "t1";
}

abbrev release_ops : List Op
release_ops = do_save release ∷ do_bind 1 7 none ∷ do_read 1 (codes "t2") ∷ []

abbrev at_one : StateRow
at_one = record { binding_id = 1; step = 1; cycle = 0; blocked_note = []; updated_at = codes "t2" }

abbrev release_plan : Plan
release_plan = record {
  id = 1;
  name = codes "release";
  description = [];
  tags = [];
  mode = restart;
  origin_workspace_id = some 7;
  created_by_agent_id = none;
  updated_at = codes "t1";
}

abbrev release_binding : Binding
release_binding = record { id = 1; planboard_id = 1; workspace_id = 7; agent_id = none }

abbrev attached : Db
attached = record {
  plans = release_plan ∷ [];
  steps =
      record { planboard_id = 1; step = record { ordinal = 1; title = codes "build"; body = [] } }
      ∷ record { planboard_id = 1; step = record { ordinal = 2; title = codes "ship"; body = [] } }
      ∷ [];
  bindings = release_binding ∷ [];
  states = at_one ∷ [];
}

reaches_attached : run nothing_yet release_ops ≡ attached
unfolding run step save bind state binding write_plan replace_steps number_steps clamp clean mode_of
    valid_name next_plan_id next_binding_id text_eq trim_space update_if
reaches_attached = refl

attached-WellFormed : WellFormed attached
attached-WellFormed =
    let w = run_keeps_positions nothing_yet release_ops nothing_yet-WellFormed in
    rw reaches_attached at w

run_keeps_positions_example :
    WellFormed (run nothing_yet (do_save release ∷ do_bind 1 7 none ∷ do_done 1 (codes "t3") ∷ []))
run_keeps_positions_example =
    run_keeps_positions nothing_yet
      (do_save release ∷ do_bind 1 7 none ∷ do_done 1 (codes "t3") ∷ []) nothing_yet-WellFormed

done_advances_example :
    let n = step_count attached 1 in
    let s' = advance n at_one (codes "t3") in
    ((done attached 1 (codes "t3")).1 ≡ ok s')
    × (position (done attached 1 (codes "t3")).0 1 ≡ some s')
    × (progress n s' ≡ progress n at_one + 1)
    × (1 ≤ s'.step)
    × (s'.step ≤ n)
    × (s'.blocked_note ≡ [])
    × (position (done attached 1 (codes "t3")).0 2 ≡ position attached 2)
done_advances_example = done_advances attached 1 2 (codes "t3") at_one attached-WellFormed refl refl

abbrev two : ℕ
two = 2

set_state_past_end_example :
    ((set_state attached 1 9 4 (codes "t3")).1 ≡ none)
    × (position (set_state attached 1 9 4 (codes "t3")).0 1
        ≡ some (restored 9 4 (codes "t3") at_one))
    × (¬ (WellFormed (set_state attached 1 9 4 (codes "t3")).0))
unfolding step_count plan_of
set_state_past_end_example =
    set_state_past_end attached 1 (codes "t3") at_one refl 9 4 (omega arith) (omega arith)

abbrev release_steps : List Step
release_steps = step_of (codes "build") ∷ step_of (codes "ship") ∷ []

release-Titled : Titled release.steps release_steps
unfolding trim_space
release-Titled = titled (λ e. cc e) (untitled refl (titled (λ e. cc e) no_steps))

save_reads_back_example :
    (pb : Planboard) × ((save nothing_yet release).1 ≡ ok pb)
    × (pb.steps ≡ numbered 1 release_steps)
    × ((s : Step) × (step_at pb.steps 2 ≡ some s))
unfolding valid_name mode_of text_eq trim_space
save_reads_back_example =
    save_reads_back nothing_yet release restart 2 release_steps refl refl release-Titled
      (omega arith) (omega arith)

abbrev release_read : Planboard
release_read = record { plan = release_plan; steps = numbered 1 release_steps }
