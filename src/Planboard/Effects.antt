-- ===== src/Planboard/Effects.antt =====
-- What Seek, Reset, Blocked, BeginRun and SetState leave in the position of a binding.
use cogitorium.Prelude.{
  ℕ, ◌≤◌, ◌<◌, ◌≡◌, refl, false, ◌||◌, none, some, arith, ltb, Text, Bool-cases, inl, inr, ◌⊎◌,
}
use cogitorium.Planboard.Rows.{
  Mode, resume, restart, out_of_range, ok, err, StateRow, Db, step_count,
}
use cogitorium.Planboard.Position.{
  at_step, restored, mode_of_binding, state, update_state, blocked, reset, seek, set_state,
  begin_run,
}
use cogitorium.Planboard.Bounds.{WellFormed}
use cogitorium.Planboard.Progress.{position, position_self, position-Fits}

module _ (db : Db) (id : ℕ) (now : Text) (s : StateRow) (here : position db id ≡ some s) where
  state_here : state db id now ≡ (db, ok s)
  unfolding state
  state_here = ground arith

  read_back :
      (n : ℕ)
      → state (update_state id (at_step n now) db) id now
        ≡ (update_state id (at_step n now) db, ok (at_step n now s))
  unfolding state
  read_back n =
      let q : position (update_state id (at_step n now) db) id ≡ some (at_step n now s) =
        position_self db id (at_step n now) (λ r. refl) s here in
      ground arith

  -- Seek refuses a step outside the plan and changes nothing then; else the position is at that
  -- step, its cycle as it was and its note cleared, and that is what Seek returns. From a binding
  -- whose position is known.
  pub seek_exact :
      (n : ℕ)
      → ((1 ≤ n)
          × (n ≤ step_count db id)
          × ((seek db id n now).1 ≡ ok (at_step n now s))
          × (position (seek db id n now).0 id ≡ some (at_step n now s)))
        ⊎ (((n ≡ 0) ⊎ (step_count db id < n)) × (seek db id n now ≡ (db, err out_of_range)))
  unfolding seek
  seek_exact n = elim (Bool-cases (ltb n 1 || ltb (step_count db id) n)) [
    | inl e ↦ inr (ground arith, rw e)
    | inr e ↦ inl (
      ground arith,
      ground arith,
      rw e (rw state_here (rw (read_back n))),
      rw e (
          rw state_here
            (rw (read_back n) (position_self db id (at_step n now) (λ r. refl) s here))),
    )
  ]

  -- Reset goes to step one of the same cycle and Blocked keeps step and cycle, noting the reason.
  -- From a binding whose position is known.
  pub reset_and_blocked :
      (reason : Text)
      → ((reset db id now).1 ≡ ok (at_step 1 now s))
        × (position (reset db id now).0 id ≡ some (at_step 1 now s))
        × ((blocked db id reason now).1 ≡ ok (record s { blocked_note = reason }))
        × (position (blocked db id reason now).0 id
            ≡ some (record s { blocked_note = reason; updated_at = now }))
  unfolding reset blocked
  reset_and_blocked reason = (
    rw state_here (rw (read_back 1)),
    rw state_here (rw (read_back 1) (position_self db id (at_step 1 now) (λ r. refl) s here)),
    rw state_here,
    rw state_here (
        position_self db id (λ r. record r { blocked_note = reason; updated_at = now }) (λ r. refl)
          s here),
  )

  -- A run of a plan in mode restart begins at step one of the same cycle; in mode resume it begins
  -- where the plan stands, and nothing is written. From a binding whose position is known.
  pub begin_run_by_mode :
      (m : Mode)
      → mode_of_binding db id ≡ some m
      → ((begin_run db id now).1 ≡ none)
        × (position (begin_run db id now).0 id
            ≡ elim m [ resume ↦ some s | restart ↦ some (at_step 1 now s) ])
  unfolding begin_run
  begin_run_by_mode resume e = (rw e, rw e here)
  begin_run_by_mode restart e = (
    rw e (rw state_here),
    rw e (rw state_here (position_self db id (at_step 1 now) (λ r. refl) s here)),
  )

  set_state_here :
      (n cycle : ℕ)
      → 0 < n
      → set_state db id n cycle now ≡ (update_state id (restored n cycle now) db, none)
  unfolding set_state
  set_state_here n cycle some_step =
      let small : ltb n 1 ≡ false = ground arith in rw state_here (rw small)

  step_count-set_state :
      (n cycle : ℕ) → 0 < n → step_count (set_state db id n cycle now).0 id ≡ step_count db id
  step_count-set_state n cycle some_step =
      rw (set_state_here n cycle some_step) (unfold update_state step_count in refl)

  -- SetState takes a step past the end of the plan: the position is there afterwards, and
  -- the database is well formed no more: a position lies beyond its plan. From a binding whose position is known.
  pub set_state_past_end :
      (n cycle : ℕ)
      → 0 < n
      → step_count db id < n
      → ((set_state db id n cycle now).1 ≡ none)
        × (position (set_state db id n cycle now).0 id ≡ some (restored n cycle now s))
        × (¬ (WellFormed (set_state db id n cycle now).0))
  set_state_past_end n cycle some_step past =
      let stored : position (set_state db id n cycle now).0 id ≡ some (restored n cycle now s) =
        rw (set_state_here n cycle some_step)
          (position_self db id (restored n cycle now) (λ r. refl) s here) in
      (
        rw (set_state_here n cycle some_step),
        stored,
        (λ w.
            let fit =
              position-Fits (set_state db id n cycle now).0 id (restored n cycle now s) w stored in
            absurd (omega (arith, fit.1, step_count-set_state n cycle some_step))),
      )
