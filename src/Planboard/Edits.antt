-- ===== src/Planboard/Edits.antt =====
-- What writes and removes plans and bindings keeps every position at a step of its plan.
use cogitorium.Prelude.{
  ℕ, ◌+◌, ◌≤◌, ◌<◌, ◌≡◌, refl, ◌∙◌, true, false, not, ◌&&◌, some, List, [], ◌∷◌, ◌++◌, ◌==◌, arith,
  ltb, if◌then◌else◌, Text, trim_space, text_eq, any, count, filter, find?, length, update_if, All,
  All-append, All-update_if-All, any-update_if, any-append, All-mono, find?-sound, count-append,
  Bool-cases, Option-cases, inl, inr, any_of_mem, ==_refl,
}
use cogitorium.Planboard.Rows.{
  Mode, Plan, Step, StepRow, Binding, StateRow, Db, has_plan_id, of_plan, has_binding_id, plan_of,
  step_count, next_plan_id, mode_of, valid_name,
}
use cogitorium.Planboard.Catalogue.{
  Draft, clean, saved, save, rewritten, plan_row, write_plan, replace_steps, number_steps, clamp,
  bound_to,
}
use cogitorium.Planboard.Bounds.{WellFormed, Fits}

count-number_steps :
    (id k o : ℕ) (new : List Step)
    → count (of_plan k) (number_steps id o new) ≡ (if id == k then length new else 0)
unfolding number_steps
count-number_steps id k o [] = ground arith
count-number_steps id k o (s ∷ new) = ground (arith, count-number_steps id k (o + 1) new)

pub count-dropped :
    (id k : ℕ) (rows : List StepRow)
    → count (of_plan k) (filter (λ s. not (of_plan id s)) rows)
      ≡ (if id == k then 0 else count (of_plan k) rows)
count-dropped id k [] = ground arith
count-dropped id k (s ∷ rows) = ground (arith, count-dropped id k rows)

-- After a save the plan has the new steps, and every other plan the steps that it had.
count-replaced :
    (id k : ℕ) (new : List Step) (db : Db)
    → count (of_plan k) (replace_steps id new db).steps
      ≡ (if id == k then length new else count (of_plan k) db.steps)
unfolding replace_steps
count-replaced id k new db =
    count-append (of_plan k) (filter (λ s. not (of_plan id s)) db.steps) (number_steps id 1 new)
    ∙ ground (arith, count-number_steps id k 1 new, count-dropped id k db.steps)

-- A position that fits has its binding in the table.
pub binding_of_Fits :
    (db : Db) (s : StateRow)
    → Fits db s
    → (b : Binding) × (find? (has_binding_id s.binding_id) db.bindings ≡ some b)
      × (s.step ≤ count (of_plan b.planboard_id) db.steps)
unfolding step_count
binding_of_Fits db s fit = elim (Option-cases (find? (has_binding_id s.binding_id) db.bindings)) [
  | inl e ↦ absurd (ground arith)
  | inr (b, e) ↦ (b, e, ground arith)
]

pub Fits-of_binding :
    (db : Db) (s : StateRow) (b : Binding)
    → find? (has_binding_id s.binding_id) db.bindings ≡ some b
    → 1 ≤ s.step
    → s.step ≤ count (of_plan b.planboard_id) db.steps
    → Fits db s
unfolding step_count
Fits-of_binding db s b e low high = (low, rw (e, step_count, plan_of) high)

pub bound_to_of_find :
    (db : Db) (id : ℕ) (s : StateRow) (b : Binding)
    → find? (has_binding_id s.binding_id) db.bindings ≡ some b
    → b.planboard_id ≡ id
    → bound_to db id s ≡ true
bound_to_of_find db id s b e same =
    let (m, h) = find?-sound (has_binding_id s.binding_id) db.bindings e in
    any_of_mem _ db.bindings m (ground arith)

module _ (id : ℕ) (new : List Step) (now : Text) (db db' : Db) (some_step : 0 < length new)
    (same_bindings : db'.bindings ≡ db.bindings)
    (counts : (k : ℕ)
      → count (of_plan k) db'.steps
        ≡ (if id == k then length new else count (of_plan k) db.steps)) where
  -- A saved plan's positions past its end go to its last step, and then every position fits.
  clamped :
      (s : StateRow)
      → Fits db s
      → Fits db' (
          if ltb (length new) s.step && bound_to db id s
          then record s { step = length new; updated_at = now }
          else s)
  clamped s fit =
      let (b, e, high) = binding_of_Fits db s fit in
      let e' : find? (has_binding_id s.binding_id) db'.bindings ≡ some b = rw same_bindings e in
      elim (Bool-cases (ltb (length new) s.step && bound_to db id s)) [
        | inl t ↦ rw t (
            Fits-of_binding db' (record s { step = length new; updated_at = now }) b e' some_step
              (ground (arith, counts b.planboard_id)))
        | inr t ↦ rw t (
            Fits-of_binding db' s b e' fit.0
              (ground (arith, counts b.planboard_id, bound_to_of_find db id s b e)))
      ]

  -- Enough for a database that a save wrote, but for the plans themselves.
  written-WellFormed :
      db'.states ≡ (clamp id (length new) now db).states
      → All (λ p. 0 < count (of_plan p.id) db'.steps) db'.plans
      → ((k : ℕ) → any (has_plan_id k) db.plans ≡ true → any (has_plan_id k) db'.plans ≡ true)
      → WellFormed db
      → WellFormed db'
  unfolding clamp step_count
  written-WellFormed states plans kept w = record {
    plans_full = plans;
    bound = rw same_bindings (All-mono _ _ db.bindings (λ b h. kept b.planboard_id h) w.bound);
    fits = rw states (All-update_if-All (Fits db) (Fits db') _ _ db.states clamped w.fits);
  }

module _ (d : Draft) (name : Text) (m : Mode) (new : List Step) (db : Db) (w : WellFormed db) where
  -- the database that the transaction leaves, over the plans that it wrote
  abbrev written : ℕ → List Plan → Db
  written id plans =
      clamp id (length new) d.now (replace_steps id new (record db { plans = plans }))

  written_keeps :
      (id : ℕ) (plans : List Plan)
      → 0 < length new
      → All (λ p. (id == p.id) ≡ false → 0 < count (of_plan p.id) db.steps) plans
      → ((k : ℕ) → any (has_plan_id k) db.plans ≡ true → any (has_plan_id k) plans ≡ true)
      → WellFormed (written id plans)
  unfolding clamp replace_steps
  written_keeps id plans some_step full kept =
      written-WellFormed id new d.now db (written id plans) some_step refl
        (λ k. count-replaced id k new db) refl
        (All-mono _ _ plans (λ p h. ground (arith, count-replaced id p.id new db)) full) kept w

  write_plan-WellFormed : 0 < length new → WellFormed (write_plan d name m new db).0
  unfolding write_plan
  write_plan-WellFormed some_step =
      elim (Option-cases (find? (λ p. text_eq p.name name) db.plans)) [
        | inl e ↦
            rw (e, write_plan)
              (written_keeps (next_plan_id db)
                (db.plans ++ plan_row d name m (next_plan_id db) ∷ []) some_step
                (All-append _ db.plans _ (All-mono _ _ db.plans (λ p h _. h) w.plans_full)
                  ((λ other. absurd (ground (arith, ==_refl (next_plan_id db)))), tt))
                (λ k h. rw (any-append (has_plan_id k) db.plans) (rw h)))
        | inr (p, e) ↦
            rw (e, write_plan)
              (written_keeps p.id (update_if (has_plan_id p.id) (rewritten d m) db.plans) some_step
                (All-update_if-All _ _ _ _ db.plans (λ q h. rewritten_full p q h) w.plans_full)
                (λ k h. any-update_if (has_plan_id k) _ _ db.plans (λ q. refl) ∙ h))
      ]
    where
      rewritten_full :
          (p q : Plan)
          → 0 < count (of_plan q.id) db.steps
          → let q' = if has_plan_id p.id q then rewritten d m q else q in
            (p.id == q'.id) ≡ false → 0 < count (of_plan q'.id) db.steps
      rewritten_full p q h other = ground arith

saved_keeps : (r : Db × ℕ) → WellFormed r.0 → WellFormed (saved r).0
saved_keeps (db, id) w = w

pub save-WellFormed : (db : Db) (d : Draft) → WellFormed db → WellFormed (save db d).0
unfolding save
save-WellFormed db d w = elim (Bool-cases (valid_name (trim_space d.name))) [
  | inl named ↦ elim (Option-cases (mode_of d.mode)) [
    | inl e ↦ rw (named, e, save) w
    | inr (m, e) ↦ elim (Bool-cases (length (clean d.steps) == 0)) [
      | inl none_left ↦ rw (named, e, save) (rw none_left w)
      | inr some_left ↦
          rw (named, e, save)
            (rw some_left (
              saved_keeps (write_plan d (trim_space d.name) m (clean d.steps) db) (
                write_plan-WellFormed d (trim_space d.name) m (clean d.steps) db w (ground arith))))
    ]
  ]
  | inr unnamed ↦ rw unnamed w
]
