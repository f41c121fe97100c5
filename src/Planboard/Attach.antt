-- ===== src/Planboard/Attach.antt =====
-- Attaching, detaching and deleting keep every position at a step of its plan.
use cogitorium.Prelude.{
  ℕ, ◌≡◌, refl, true, false, not, Option, some, ◌==◌, arith, any, count, filter, find?, All-filter,
  any-filter, All-append, All-mono, find?-sound, find?-filter, find?-append_hit, Bool-cases, inl,
  inr,
}
use cogitorium.Planboard.Rows.{
  Result, ok, err, Binding, StateRow, Db, has_plan_id, of_plan, has_binding_id, of_binding,
}
use cogitorium.Planboard.Catalogue.{delete, bound_to}
use cogitorium.Planboard.Position.{bind, unbind, attaches, drop_binding, binding}
use cogitorium.Planboard.Bounds.{WellFormed, Fits}
use cogitorium.Planboard.Edits.{binding_of_Fits, Fits-of_binding, bound_to_of_find, count-dropped}

module _ (db : Db) (w : WellFormed db) where
  -- A position whose plan stays keeps its place, whatever bindings and plans go.
  kept_Fits :
      (db' : Db) (s : StateRow)
      → ((b : Binding)
          → find? (has_binding_id s.binding_id) db.bindings ≡ some b
          → (find? (has_binding_id s.binding_id) db'.bindings ≡ some b)
            × (count (of_plan b.planboard_id) db'.steps ≡ count (of_plan b.planboard_id) db.steps))
      → Fits db s
      → Fits db' s
  kept_Fits db' s kept fit =
      let (b, e, high) = binding_of_Fits db s fit in
      let (e', same) = kept b e in Fits-of_binding db' s b e' fit.0 (rw same high)

  pub delete-WellFormed : (id : ℕ) → WellFormed (delete db id).0
  unfolding delete
  delete-WellFormed id = elim (Bool-cases (count (has_plan_id id) db.plans == 0)) [
    | inl e ↦ rw e w
    | inr e ↦ rw e (record {
      plans_full =
          All-filter _ _ _ db.plans (λ p other h. ground (arith, count-dropped id p.id db.steps))
            w.plans_full;
      bound =
          All-filter _ _ _ db.bindings
            (λ b other h.
              rw
                (any-filter (has_plan_id b.planboard_id) (λ p. not (has_plan_id id p)) db.plans
                  (λ p k. ground arith))
                h)
            w.bound;
      fits =
          All-filter (Fits db) _ _ db.states
            (λ s free fit. kept_Fits _ s (λ b q. survives s b free q) fit) w.fits;
    })
  ]
    where
      survives :
          (s : StateRow) (b : Binding)
          → not (bound_to db id s) ≡ true
          → find? (has_binding_id s.binding_id) db.bindings ≡ some b
          → (find?
                (has_binding_id s.binding_id)
                (filter (λ c. not (c.planboard_id == id)) db.bindings)
              ≡ some b)
            × (count (of_plan b.planboard_id) (filter (λ r. not (of_plan id r)) db.steps)
                ≡ count (of_plan b.planboard_id) db.steps)
      survives s b free q =
          let other : (b.planboard_id == id) ≡ false =
            ground (arith, bound_to_of_find db id s b q) in
          (
            find?-filter _ _ db.bindings q (rw other),
            ground (arith, count-dropped id b.planboard_id db.steps),
          )

  pub bind-WellFormed :
      (plan workspace : ℕ) (agent : Option ℕ) → WellFormed (bind db plan workspace agent).0
  unfolding bind
  bind-WellFormed plan workspace agent =
      elim (Bool-cases (any (attaches plan workspace agent) db.bindings)) [
        | inl e ↦ rw e w
        | inr e ↦ elim (Bool-cases (any (has_plan_id plan) db.plans)) [
          | inl there ↦
              rw (e, there)
                (record {
                  plans_full = w.plans_full;
                  bound = All-append _ db.bindings _ w.bound (there, tt);
                  fits =
                      All-mono (Fits db) _ db.states
                        (λ s fit.
                          kept_Fits _ s (λ b q. (find?-append_hit _ db.bindings _ q, refl)) fit)
                        w.fits;
                })
          | inr gone ↦ rw (e, gone) w
        ]
      ]

  drop_binding-WellFormed : (r : Result Binding) → WellFormed (drop_binding db r).0
  drop_binding-WellFormed (err e) = w
  drop_binding-WellFormed (ok b) = record {
    plans_full = w.plans_full;
    bound = All-filter _ _ _ db.bindings (λ c _ h. h) w.bound;
    fits =
        All-filter (Fits db) _ _ db.states
          (λ s other fit.
            kept_Fits _ s (λ c q. (find?-filter _ _ db.bindings q (survives s c other q), refl))
              fit)
          w.fits;
  }
    where
      survives :
          (s : StateRow) (c : Binding)
          → not (of_binding b.id s) ≡ true
          → find? (has_binding_id s.binding_id) db.bindings ≡ some c
          → not (has_binding_id b.id c) ≡ true
      survives s c other q =
          ground (arith, (find?-sound (has_binding_id s.binding_id) db.bindings q).1)

  pub unbind-WellFormed :
      (plan workspace : ℕ) (agent : Option ℕ) → WellFormed (unbind db plan workspace agent).0
  unfolding unbind
  unbind-WellFormed plan workspace agent = drop_binding-WellFormed (binding db plan workspace agent)
