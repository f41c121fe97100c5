-- ===== src/Planboard/Progress.antt =====
-- What each move does to the position of its binding, and to no other.
use native.Mathlib.Decide.{dec_lt}
use native.Mathlib.Nat.{mul-le-mul_right}
use cogitorium.Prelude.{
  ℕ, zero, suc, ◌+◌, ◌*◌, ◌≤◌, ◌<◌, ◌≡◌, refl, ap, ◌∙◌, true, false, Option, some, [], ◌==◌, arith,
  ltb, Text, find?, All-find?, find?-sound, find?-update_if, Bool-cases, Option-cases, inl, inr,
  ==_iff,
}
use cogitorium.Planboard.Rows.{ok, StateRow, Db, of_binding, step_count}
use cogitorium.Planboard.Position.{moved_to, state, update_state, advance, done}
use cogitorium.Planboard.Bounds.{WellFormed, Fits}
use cogitorium.Planboard.Moves.{done-WellFormed}

-- the row that holds a binding's position
abbrev pub position : Db → ℕ → Option StateRow
position db id = find? (of_binding id) db.states

-- How many steps were done since the plan was begun, with the one in front counted.
abbrev pub progress : ℕ → StateRow → ℕ
progress n s = s.cycle * n + s.step

module _ (db : Db) (id : ℕ) (f : StateRow → StateRow)
    (same : (s : StateRow) → (f s).binding_id ≡ s.binding_id) where
  pub position_self :
      (s : StateRow) → position db id ≡ some s → position (update_state id f db) id ≡ some (f s)
  unfolding update_state
  position_self s e =
      let mine : of_binding id s ≡ true = (find?-sound (of_binding id) db.states e).1 in
      find?-update_if (of_binding id) (of_binding id) f db.states
        (λ r. ap (λ (n : ℕ). n == id) (same r))
      ∙ rw e (rw mine)

  position_other : (j : ℕ) → (j == id) ≡ false → position (update_state id f db) j ≡ position db j
  unfolding update_state
  position_other j other = elim (Option-cases (position db j)) [
    | inl e ↦
        find?-update_if (of_binding j) (of_binding id) f db.states
          (λ r. ap (λ (n : ℕ). n == j) (same r))
        ∙ rw e
    | inr (s, e) ↦
        let its : of_binding j s ≡ true = (find?-sound (of_binding j) db.states e).1 in
        let not_mine : of_binding id s ≡ false = ground arith in
        find?-update_if (of_binding j) (of_binding id) f db.states
          (λ r. ap (λ (n : ℕ). n == j) (same r))
        ∙ rw e (rw not_mine)
  ]

done_at :
    (db : Db) (id : ℕ) (now : Text) (s : StateRow)
    → position db id ≡ some s
    → 0 < step_count db id
    → done db id now ≡ (
      update_state id (moved_to (advance (step_count db id) s now)) db,
      ok (advance (step_count db id) s now),
    )
unfolding done state
done_at db id now s e some_step = ground arith

advance-progress :
    (n : ℕ) (s : StateRow) (now : Text)
    → 1 ≤ s.step
    → s.step ≤ n
    → progress n (advance n s now) ≡ progress n s + 1
unfolding advance
advance-progress n s now low high = elim (Bool-cases (ltb n (s.step + 1))) [
  | inl e ↦ rw e (ground arith)
  | inr e ↦ rw e (omega arith)
]

moved_to-advance :
    (n : ℕ) (s : StateRow) (now : Text) → moved_to (advance n s now) s ≡ advance n s now
unfolding advance
moved_to-advance n s now = elim (Bool-cases (ltb n (s.step + 1))) [ inl e ↦ rw e | inr e ↦ rw e ]

pub position-Fits :
    (db : Db) (id : ℕ) (s : StateRow)
    → WellFormed db
    → position db id ≡ some s
    → (1 ≤ s.step) × (s.step ≤ step_count db id)
position-Fits db id s w e =
    let fit : Fits db s = All-find? (Fits db) (of_binding id) db.states w.fits e in
    let same : s.binding_id ≡ id =
      (==_iff s.binding_id id).0 ((find?-sound (of_binding id) db.states e).1) in
    (fit.0, rw same at fit.1)

-- Done moves its binding one step on, into the next cycle past the last step, clears the note and
-- returns the position that it stored; the position of another binding `j` stays. From a position
-- of a well-formed database.
pub done_advances :
    (db : Db) (id j : ℕ) (now : Text) (s : StateRow)
    → WellFormed db
    → position db id ≡ some s
    → (j == id) ≡ false
    → let n = step_count db id in
      let s' = advance n s now in
      ((done db id now).1 ≡ ok s')
      × (position (done db id now).0 id ≡ some s')
      × (progress n s' ≡ progress n s + 1)
      × (1 ≤ s'.step)
      × (s'.step ≤ n)
      × (s'.blocked_note ≡ [])
      × (position (done db id now).0 j ≡ position db j)
done_advances db id j now s w e other =
    let n : ℕ = step_count db id in
    let (low, high) = position-Fits db id s w e in
    let q = done_at db id now s e (omega arith) in
    let target : StateRow → StateRow = moved_to (advance n s now) in
    (
      rw q,
      rw q (position_self db id target (λ r. refl) s e ∙ ap some (moved_to-advance n s now)),
      advance-progress n s now low high,
      unfold advance in ground arith,
      unfold advance in ground arith,
      unfold advance in ground arith,
      rw q (position_other db id target (λ r. refl) j other),
    )

-- Done, `k` times in a row.
pub dones : ℕ → Db → ℕ → Text → Db
dones zero db id now = db
dones (suc k) db id now = dones k (done db id now).0 id now

step_count-done :
    (db : Db) (id : ℕ) (now : Text) (s : StateRow)
    → position db id ≡ some s
    → 0 < step_count db id
    → step_count (done db id now).0 id ≡ step_count db id
step_count-done db id now s e some_step =
    rw (done_at db id now s e some_step) (unfold update_state step_count in refl)

dones-progress :
    (k : ℕ) (db : Db) (id : ℕ) (now : Text) (s : StateRow)
    → WellFormed db
    → position db id ≡ some s
    → (s' : StateRow) × (position (dones k db id now) id ≡ some s')
      × (progress (step_count db id) s' ≡ progress (step_count db id) s + k)
      × (1 ≤ s'.step)
      × (s'.step ≤ step_count db id)
unfolding dones
dones-progress zero db id now s w e =
    let (low, high) = position-Fits db id s w e in (s, e, omega arith, low, high)
dones-progress (suc k) db id now s w e =
    let (_, stored, more, _, _, _, _) = done_advances db id (suc id) now s w e (ground arith) in
    let (low, high) = position-Fits db id s w e in
    let (s', e', p, l, h) =
      dones-progress k (done db id now).0 id now _ (done-WellFormed db id now w) stored in
    let same : step_count (done db id now).0 id ≡ step_count db id =
      step_count-done db id now s e (omega arith) in
    (s', e', (rw same at p) ∙ omega arith, l, rw same at h)

-- A quotient and a remainder from one up to `n` are determined by the number.
one_round :
    (n c c' step : ℕ)
    → 1 ≤ step
    → step ≤ n
    → c' * n + step ≡ c * n + 1 + n
    → (c' ≡ c + 1) × (step ≡ 1)
one_round n c c' step low high e = elim (dec_lt c' (c + 1)) [
  | yes few ↦ absurd (too_few few)
  | no other ↦ elim (dec_lt (c + 1) c') [
    | yes many ↦ absurd (too_many many)
    | no equal ↦ let q : c' ≡ c + 1 = omega arith in (q, omega (arith, ap (λ (x : ℕ). x * n) q))
  ]
]
  where
    too_few : c' < c + 1 → ⊥
    too_few few = let h : c' * n ≤ c * n = mul-le-mul_right n (omega arith) in omega arith

    too_many : c + 1 < c' → ⊥
    too_many many = let h : (c + 2) * n ≤ c' * n = mul-le-mul_right n (omega arith) in omega arith

-- As many calls of Done as the plan has steps, from step one, lead back to step one, one cycle on.
-- In a well-formed database.
pub dones_round :
    (db : Db) (id : ℕ) (now : Text) (s : StateRow)
    → WellFormed db
    → position db id ≡ some s
    → s.step ≡ 1
    → (s' : StateRow) × (position (dones (step_count db id) db id now) id ≡ some s')
      × (s'.cycle ≡ s.cycle + 1)
      × (s'.step ≡ 1)
dones_round db id now s w e first =
    let (s', e', p, l, h) = dones-progress (step_count db id) db id now s w e in
    let (c, one) = one_round (step_count db id) s.cycle s'.cycle s'.step l h (p ∙ ground arith) in
    (s', e', c, one)
