-- ===== src/Planboard/Saved.antt =====
-- What Save stores is what Get reads back, a step for every ordinal.
use cogitorium.Prelude.{
  ◌≢◌, is_empty, ℕ, ◌+◌, ◌≤◌, ◌<◌, ◌≡◌, refl, ap, ◌∙◌, Bool, true, false, not, some, List, [], ◌∷◌,
  ◌++◌, ◌==◌, arith, ltb, Text, any, any-append, any-update_if, insert_by, sort_by, filter, find?,
  length, update_if, find?-sound, Bool-cases, Option-cases, inl, inr, any_of_mem, ==_iff, ==_refl,
  trim_space, text_eq,
}
use cogitorium.Planboard.Rows.{
  Mode, ok, Plan, Step, StepRow, Db, has_plan_id, of_plan, next_plan_id, steps, steps_of, get,
  Planboard, mode_of, valid_name,
}
use cogitorium.Planboard.Catalogue.{
  Draft, clean, saved, plan_row, rewritten, save, write_plan, replace_steps, number_steps, clamp,
}
use cogitorium.Planboard.Position.{step_at}
use cogitorium.Planboard.Bounds.{any-find?}

-- the steps as they are read back: numbered from `o`
abbrev pub numbered : ℕ → List Step → List Step
numbered o [] = []
numbered o (s ∷ rest) = record s { ordinal = o } ∷ numbered (o + 1) rest

steps_of-append :
    (id : ℕ) (xs ys : List StepRow) → steps_of id (xs ++ ys) ≡ steps_of id xs ++ steps_of id ys
steps_of-append id [] ys = refl
steps_of-append id (x ∷ xs) ys = ground (arith, steps_of-append id xs ys)

steps_of-dropped :
    (id : ℕ) (rows : List StepRow) → steps_of id (filter (λ s. not (of_plan id s)) rows) ≡ []
steps_of-dropped id [] = refl
steps_of-dropped id (r ∷ rows) = ground (arith, steps_of-dropped id rows)

steps_of-number_steps :
    (id o : ℕ) (new : List Step) → steps_of id (number_steps id o new) ≡ numbered o new
unfolding number_steps
steps_of-number_steps id o [] = refl
steps_of-number_steps id o (s ∷ new) =
    ground (arith, ==_refl id, steps_of-number_steps id (o + 1) new)

abbrev by_ordinal : Step → Step → Bool
by_ordinal a b = ltb a.ordinal b.ordinal

insert-numbered :
    (o : ℕ) (s : Step) (new : List Step)
    → s.ordinal ≡ o
    → insert_by by_ordinal s (numbered (o + 1) new) ≡ s ∷ numbered (o + 1) new
insert-numbered o s [] e = refl
insert-numbered o s (t ∷ new) e = ground arith

sort-numbered : (o : ℕ) (new : List Step) → sort_by by_ordinal (numbered o new) ≡ numbered o new
sort-numbered o [] = refl
sort-numbered o (s ∷ new) =
    rw (sort-numbered (o + 1) new) (insert-numbered o (record s { ordinal = o }) new refl)

steps-replaced :
    (id : ℕ) (new : List Step) (db : Db) → steps (replace_steps id new db) id ≡ numbered 1 new
unfolding steps replace_steps
steps-replaced id new db =
    let q : steps_of id (filter (λ s. not (of_plan id s)) db.steps ++ number_steps id 1 new)
        ≡ numbered 1 new =
      steps_of-append id (filter (λ s. not (of_plan id s)) db.steps) (number_steps id 1 new)
      ∙ rw (steps_of-dropped id db.steps) (steps_of-number_steps id 1 new) in
    ap (sort_by by_ordinal) q ∙ sort-numbered 1 new

step_at-numbered :
    (o k : ℕ) (new : List Step)
    → o ≤ k
    → k < o + length new
    → (s : Step) × (step_at (numbered o new) k ≡ some s)
unfolding step_at
step_at-numbered o k [] low high = absurd (omega arith)
step_at-numbered o k (s ∷ new) low high = elim (Bool-cases (o == k)) [
  | inl e ↦ (record s { ordinal = o }, rw e)
  | inr e ↦ let (t, q) = step_at-numbered (o + 1) k new (ground arith) (omega arith) in (t, rw e q)
]

get_of_any :
    (db : Db) (id : ℕ)
    → any (has_plan_id id) db.plans ≡ true
    → (pb : Planboard) × (get db id ≡ ok pb) × (pb.steps ≡ steps db id) × (pb.plan.id ≡ id)
unfolding get
get_of_any db id h =
    let (p, e) = any-find? (has_plan_id id) db.plans h in
    let same : p.id ≡ id = (==_iff p.id id).0 ((find?-sound (has_plan_id id) db.plans e).1) in
    (record { plan = p; steps = steps db p.id }, rw e, rw same, same)

steps-clamp : (id n : ℕ) (now : Text) (db : Db) → steps (clamp id n now db) id ≡ steps db id
unfolding steps clamp
steps-clamp id n now db = refl

-- the plan of this id is there, and its steps are the new ones in order
abbrev ReadsBack : Db × ℕ → List Step → Type 0
ReadsBack (db, id) new = (any (has_plan_id id) db.plans ≡ true) × (steps db id ≡ numbered 1 new)

written-ReadsBack :
    (d : Draft) (id : ℕ) (plans : List Plan) (new : List Step) (db : Db)
    → any (has_plan_id id) plans ≡ true
    → ReadsBack
        (clamp id (length new) d.now (replace_steps id new (record db { plans = plans })), id)
        new
written-ReadsBack d id plans new db h = (
  unfold clamp replace_steps in h,
  steps-clamp id (length new) d.now (replace_steps id new (record db { plans = plans }))
      ∙ steps-replaced id new (record db { plans = plans }),
)

write_plan-ReadsBack :
    (d : Draft) (name : Text) (m : Mode) (new : List Step) (db : Db)
    → ReadsBack (write_plan d name m new db) new
unfolding write_plan
write_plan-ReadsBack d name m new db =
    elim (Option-cases (find? (λ p. text_eq p.name name) db.plans)) [
      | inl e ↦
          rw (e, write_plan)
            (written-ReadsBack d (next_plan_id db)
              (db.plans ++ plan_row d name m (next_plan_id db) ∷ []) new db
              (added (next_plan_id db)))
      | inr (p, e) ↦
          rw (e, write_plan)
            (written-ReadsBack d p.id (update_if (has_plan_id p.id) (rewritten d m) db.plans) new db
              (any-update_if (has_plan_id p.id) _ _ db.plans (λ q. refl)
                ∙ any_of_mem _ db.plans (find?-sound (λ q. text_eq q.name name) db.plans e).0
                    (==_refl p.id)))
    ]
  where
    added : (id : ℕ) → any (has_plan_id id) (db.plans ++ plan_row d name m id ∷ []) ≡ true
    added id = any-append (has_plan_id id) db.plans _ ∙ ground (arith, ==_refl id)

saved-ReadsBack :
    (r : Db × ℕ) (new : List Step)
    → ReadsBack r new
    → (pb : Planboard) × ((saved r).1 ≡ ok pb) × (pb.steps ≡ numbered 1 new)
saved-ReadsBack (db, id) new h = let (pb, e, q, _) = get_of_any db id h.0 in (pb, e, q ∙ h.1)

-- The steps that have a title once the spaces around it are cut off, in their order, with the spaces
-- cut off their titles and bodies.
pub data Titled : List Step → List Step → Type 0 where
  no_steps : Titled [] []
  untitled :
      {s : Step} {ds new : List Step}
      → trim_space s.title ≡ []
      → Titled ds new
      → Titled (s ∷ ds) new
  titled :
      {s : Step} {ds new : List Step}
      → trim_space s.title ≢ []
      → Titled ds new
      → Titled (s ∷ ds) (
          record { ordinal = s.ordinal; title = trim_space s.title; body = trim_space s.body }
          ∷ new)

not_empty : (t : Text) → t ≢ [] → is_empty t ≡ false
not_empty [] h = absurd (h refl)
not_empty (c ∷ t) h = refl

clean-Titled : {ds new : List Step} → Titled ds new → clean ds ≡ new
unfolding clean
clean-Titled no_steps = refl
clean-Titled (untitled e t) = rw e (clean-Titled t)
clean-Titled (titled {s} {ds} {new} h t) = rw (not_empty (trim_space s.title) h) (
    ap (λ l. record s { title = trim_space s.title; body = trim_space s.body } ∷ l)
      (clean-Titled t))

-- A save under a good name, with a known mode and a step that has a title, succeeds, and the plan
-- that it returns has just the titled steps `new`, trimmed, in their order and numbered from one; so
-- there is a step at every ordinal `k` up to their number.
pub save_reads_back :
    (db : Db) (d : Draft) (m : Mode) (k : ℕ) (new : List Step)
    → valid_name (trim_space d.name) ≡ true
    → mode_of d.mode ≡ some m
    → Titled d.steps new
    → 1 ≤ k
    → k ≤ length new
    → (pb : Planboard) × ((save db d).1 ≡ ok pb)
      × (pb.steps ≡ numbered 1 new)
      × ((s : Step) × (step_at pb.steps k ≡ some s))
unfolding save
save_reads_back db d m k new named moded kept low high =
    let same : clean d.steps ≡ new = clean-Titled kept in
    let some_left : (length (clean d.steps) == 0) ≡ false = rw same (ground arith) in
    let (pb, e, q) =
      saved-ReadsBack (write_plan d (trim_space d.name) m (clean d.steps) db) (clean d.steps)
        (write_plan-ReadsBack d (trim_space d.name) m (clean d.steps) db) in
    let read : pb.steps ≡ numbered 1 new = q ∙ ap (numbered 1) same in
    (
      pb,
      rw (named, moded, save) (rw some_left e),
      read,
      rw read (step_at-numbered 1 k new low (omega arith)),
    )
