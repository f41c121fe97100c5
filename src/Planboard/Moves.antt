-- ===== src/Planboard/Moves.antt =====
-- What moves a position keeps it at a step of its plan.
use cogitorium.Prelude.{
  ℕ, ◌≤◌, ◌<◌, ◌≡◌, true, ◌||◌, Option, none, some, ◌==◌, arith, ltb, if◌then◌else◌, Text, find?,
  All-update_if, All-find?, find?-sound, Bool-cases, inl, inr, ==_iff, ◌⊎◌,
}
use cogitorium.Planboard.Rows.{
  Mode, resume, restart, storage, Result, ok, err, StateRow, Db, of_binding, step_count,
}
use cogitorium.Planboard.Position.{
  state, then_with, moved_to, at_step, then_update, begin_in_mode, mode_of_binding, update_state,
  advance, done, blocked, reset, seek, set_state, begin_run,
}
use cogitorium.Planboard.Bounds.{
  WellFormed, Fits, count_pos_of_binding, state-WellFormed, state_cases, step_count-state,
}

-- Rewriting the positions of one binding within its plan's steps.
update_state-WellFormed :
    (db : Db) (id : ℕ) (f : StateRow → StateRow)
    → ((s : StateRow) → of_binding id s ≡ true → Fits db s → Fits db (f s))
    → WellFormed db
    → WellFormed (update_state id f db)
unfolding update_state
update_state-WellFormed db id f k w = record {
  plans_full = w.plans_full;
  bound = w.bound;
  fits = unfold step_count in All-update_if (Fits db) (of_binding id) f db.states k w.fits;
}

then_with_keeps :
    {A : Type 0} (P : Db → Type 0) (r : Db × Result StateRow) (k : Db → StateRow → Db × Result A)
    → P r.0
    → ((db : Db) (s : StateRow) → P db → P (k db s).0)
    → P (then_with r k).0
then_with_keeps P (db, ok s) k h step = step db s h
then_with_keeps P (db, err e) k h step = h

advance-Fits :
    (db : Db) (id : ℕ) (s r : StateRow) (now : Text)
    → 0 < step_count db id
    → of_binding id r ≡ true
    → Fits db (moved_to (advance (step_count db id) s now) r)
unfolding advance
advance-Fits db id s r now some_step same =
    let q : r.binding_id ≡ id = (==_iff r.binding_id id).0 same in rw q (ground arith, ground arith)

at_step-Fits :
    (db : Db) (id n : ℕ) (now : Text) (r : StateRow)
    → 1 ≤ n
    → n ≤ step_count db id
    → of_binding id r ≡ true
    → Fits db (at_step n now r)
at_step-Fits db id n now r low high same =
    let q : r.binding_id ≡ id = (==_iff r.binding_id id).0 same in rw q (low, high)

-- Done, Blocked, Reset, Seek and BeginRun keep every position at a step of its plan.
module _ (db : Db) (id : ℕ) (now : Text) (w : WellFormed db) where
  read : WellFormed (state db id now).0
  read = state-WellFormed db id now w

  pub done-WellFormed : WellFormed (done db id now).0
  unfolding done
  done-WellFormed = then_with_keeps WellFormed (state db id now) _ read λ d s k.
      elim (Bool-cases (step_count d id == 0)) [
        | inl e ↦ rw e k
        | inr e ↦ rw e (
            update_state-WellFormed d id _
              (λ r same _. advance-Fits d id s r now (ground arith) same) k)
      ]

  pub blocked-WellFormed : (reason : Text) → WellFormed (blocked db id reason now).0
  unfolding blocked
  blocked-WellFormed reason =
      then_with_keeps WellFormed (state db id now) _ read
        λ d s k. update_state-WellFormed d id _ (λ r same fit. fit) k

  positive :
      WellFormed (state db id now).0 × (0 < step_count (state db id now).0 id)
      ⊎ (state db id now ≡ (db, err storage))
  positive = elim (state_cases db id now) [
    | inl (s, e, q) ↦ inl (read, rw (step_count-state db id id now) (at_hit s e))
    | inr (inl (there, q)) ↦
        inl (read, rw (step_count-state db id id now) (count_pos_of_binding db id w there))
    | inr (inr q) ↦ inr q
  ]
    where
      at_hit : (s : StateRow) → find? (of_binding id) db.states ≡ some s → 0 < step_count db id
      at_hit s e =
          let fit : Fits db s = All-find? (Fits db) (of_binding id) db.states w.fits e in
          let same : s.binding_id ≡ id =
            (==_iff s.binding_id id).0 ((find?-sound (of_binding id) db.states e).1) in
          let fit' : s.step ≤ step_count db id = (rw same at fit.1) in omega arith

  moved-WellFormed :
      (n : ℕ)
      → 1 ≤ n
      → (state db id now ≡ (db, err storage)) ⊎ (n ≤ step_count db id)
      → WellFormed
          (then_with (state db id now) (λ d s. state (update_state id (at_step n now) d) id now)).0
  moved-WellFormed n low (inl gone) = rw gone w
  moved-WellFormed n low (inr high) =
      (then_with_keeps (λ d. WellFormed d × (n ≤ step_count d id)) (state db id now) _
        (read, rw (step_count-state db id id now) high)
        λ d s k. (
          state-WellFormed _ id now (
              update_state-WellFormed d id _ (λ r same _. at_step-Fits d id n now r low k.1 same)
                k.0),
          rw (step_count-state _ id id now) (unfold update_state step_count in k.1),
        )).0

  pub reset-WellFormed : WellFormed (reset db id now).0
  unfolding reset
  reset-WellFormed = moved-WellFormed 1 (omega arith) (elim positive [
    | inl k ↦ inr (rw (step_count-state db id id now) at k.1)
    | inr gone ↦ inl gone
  ])

  pub seek-WellFormed : (n : ℕ) → WellFormed (seek db id n now).0
  unfolding seek
  seek-WellFormed n = elim (Bool-cases (ltb n 1 || ltb (step_count db id) n)) [
    | inl e ↦ rw e w
    | inr e ↦ rw e (moved-WellFormed n (ground arith) (inr (ground arith)))
  ]

  then_update-WellFormed :
      (n : ℕ) (f : StateRow → StateRow)
      → ((d : Db)
          → n ≤ step_count d id
          → (r : StateRow) → of_binding id r ≡ true
          → Fits d r
          → Fits d (f r))
      → (r : Db × Result StateRow) → WellFormed r.0
      → n ≤ step_count r.0 id
      → WellFormed (then_update r (update_state id f)).0
  then_update-WellFormed n f k (d, ok s) v high = update_state-WellFormed d id f (k d high) v
  then_update-WellFormed n f k (d, err e) v high = v

  begin_in_mode-WellFormed : (m : Option Mode) → WellFormed (begin_in_mode db id now m).0
  begin_in_mode-WellFormed none = w
  begin_in_mode-WellFormed (some resume) = w
  begin_in_mode-WellFormed (some restart) = elim positive [
    | inl (v, some_step) ↦
        then_update-WellFormed 1 (at_step 1 now)
          (λ d high r same _. at_step-Fits d id 1 now r (omega arith) high same) (state db id now) v
          some_step
    | inr gone ↦ rw gone w
  ]

  pub begin_run-WellFormed : WellFormed (begin_run db id now).0
  unfolding begin_run
  begin_run-WellFormed = begin_in_mode-WellFormed (mode_of_binding db id)

  -- A restored position within the plan.
  pub set_state-WellFormed :
      (n cycle : ℕ) → n ≤ step_count db id → WellFormed (set_state db id n cycle now).0
  unfolding set_state
  set_state-WellFormed n cycle high = elim positive [
    | inl (v, some_step) ↦
        then_update-WellFormed (if ltb n 1 then 1 else n) _
          (λ d h r same _.
            let q : r.binding_id ≡ id = (==_iff r.binding_id id).0 same in rw q (ground arith, h))
          (state db id now) v
          (rw (step_count-state db id id now) (ground (arith, step_count-state db id id now)))
    | inr gone ↦ rw gone w
  ]
