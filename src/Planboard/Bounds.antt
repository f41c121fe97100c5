-- ===== src/Planboard/Bounds.antt =====
-- Every position points at a step of its plan, and every plan has a step.
use cogitorium.Prelude.{
  ℕ, ◌≤◌, ◌<◌, ◌≡◌, Bool, true, some, List, [], ◌∷◌, ◌++◌, arith, Text, any, count, find?, All,
  All-append, All-find?, find?-sound, Bool-cases, Option-cases, inl, inr, ==_iff, ◌⊎◌,
}
use cogitorium.Planboard.Rows.{
  storage, ok, err, StateRow, Db, has_plan_id, of_plan, has_binding_id, of_binding, plan_of,
  step_count,
}
use cogitorium.Planboard.Position.{first_state, state}

-- the position lies within its plan
abbrev pub Fits : Db → StateRow → Type 0
Fits db s = (1 ≤ s.step) × (s.step ≤ step_count db s.binding_id)

pub record WellFormed (db : Db) : Type 0 where
  pub plans_full : All (λ p. 0 < count (of_plan p.id) db.steps) db.plans
  pub bound : All (λ b. any (has_plan_id b.planboard_id) db.plans ≡ true) db.bindings
  pub fits : All (Fits db) db.states

pub any-find? :
    {A : Type 0} (p : A → Bool) (xs : List A) → any p xs ≡ true → (x : A) × (find? p xs ≡ some x)
any-find? p [] h = cc
any-find? p (y ∷ xs) h = elim (Bool-cases (p y)) [
  | inl e ↦ (y, rw e)
  | inr e ↦ let (x, q) = any-find? p xs (ground arith) in (x, rw e q)
]

-- A plan that exists has a step.
pub plan_full :
    (db : Db) (id : ℕ)
    → WellFormed db
    → any (has_plan_id id) db.plans ≡ true
    → 0 < count (of_plan id) db.steps
plan_full db id w h =
    let (p, e) = any-find? (has_plan_id id) db.plans h in
    let full : 0 < count (of_plan p.id) db.steps =
      All-find? (λ q. 0 < count (of_plan q.id) db.steps) (has_plan_id id) db.plans w.plans_full e in
    let same : p.id ≡ id = (==_iff p.id id).0 ((find?-sound (has_plan_id id) db.plans e).1) in
    rw same at full

-- A binding that exists has a plan with a step.
pub count_pos_of_binding :
    (db : Db) (id : ℕ)
    → WellFormed db
    → any (has_binding_id id) db.bindings ≡ true
    → 0 < step_count db id
unfolding step_count plan_of
count_pos_of_binding db id w h =
    let (b, e) = any-find? (has_binding_id id) db.bindings h in
    let there : any (has_plan_id b.planboard_id) db.plans ≡ true =
      All-find? (λ c. any (has_plan_id c.planboard_id) db.plans ≡ true) (has_binding_id id)
        db.bindings w.bound e in
    rw (e, step_count, plan_of) (plan_full db b.planboard_id w there)

module _ (db : Db) (id : ℕ) (now : Text) where
  -- A position that is known is read; one that is not begins at step one, if its binding is there.
  pub state_cases :
      ((s : StateRow) × (find? (of_binding id) db.states ≡ some s) × (state db id now ≡ (db, ok s)))
      ⊎ (any (has_binding_id id) db.bindings ≡ true)
        × (state db id now ≡ (
          record db { states = db.states ++ first_state id now ∷ [] },
          ok (first_state id now),
        ))
      ⊎ (state db id now ≡ (db, err storage))
  unfolding state
  state_cases = elim (Option-cases (find? (of_binding id) db.states)) [
    | inl e ↦ elim (Bool-cases (any (has_binding_id id) db.bindings)) [
      | inl there ↦ inr (inl (there, ground arith))
      | inr gone ↦ inr (inr (ground arith))
    ]
    | inr (s, e) ↦ inl (s, e, ground arith)
  ]

  -- Reading a position keeps the database well formed.
  pub state-WellFormed : WellFormed db → WellFormed (state db id now).0
  state-WellFormed w = elim state_cases [
    | inl (s, _, e) ↦ rw e w
    | inr (inl (there, e)) ↦ rw e (record {
      plans_full = w.plans_full;
      bound = w.bound;
      fits =
          All-append _ db.states _ (unfold step_count in w.fits)
            ((omega arith, unfold step_count in count_pos_of_binding db id w there), tt);
    })
    | inr (inr e) ↦ rw e w
  ]

pub step_count-state :
    (db : Db) (id other : ℕ) (now : Text)
    → step_count (state db id now).0 other ≡ step_count db other
unfolding state step_count
step_count-state db id other now = ground arith
