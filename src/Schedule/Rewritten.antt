-- ===== src/Schedule/Rewritten.antt =====
-- What UPDATE leaves in the table of the schedules.
use cogitorium.Prelude.{
  ℕ, ◌≡◌, refl, sym, ap, ◌∙◌, Bool, true, false, not, none, some, [], ◌∷◌, arith, inl, inr,
  Bool-cases, any, find?, find?-sound, update_if, ==_iff, ==_refl, ◌==◌, Option-cases,
}
use cogitorium.Prelude
use cogitorium.Schedule.Table.{ScheduleRow, Table, ok, not_found, or_fault, has_schedule_id}
use cogitorium.Schedule.Store.{get, rewrite, clashes}

pub get-id :
    (t : Table) (id : ℕ) {r : ScheduleRow}
    → get t id ≡ ok r
    → (r.id ≡ id) × (find? (has_schedule_id id) t ≡ some r)
unfolding get
get-id t id {r} h = elim (Option-cases (find? (has_schedule_id id) t)) [
  | inl e ↦ absurd (cc (rw e at h))
  | inr (s, e) ↦
      let same : s ≡ r = let k = rw e at h in cc k in
      (
        ap (λ (x : ScheduleRow). x.id) (sym same)
            ∙ (==_iff s.id id).0 ((find?-sound (has_schedule_id id) t e).1),
        e ∙ ap some same,
      )
]

find-replaced :
    (t : Table) (s : ScheduleRow) {r : ScheduleRow}
    → find? (has_schedule_id s.id) t ≡ some r
    → find? (has_schedule_id s.id) (update_if (has_schedule_id s.id) (λ _. s) t) ≡ some s
unfolding update_if
find-replaced [] s h = cc
find-replaced (q ∷ t) s h = elim (Bool-cases (has_schedule_id s.id q)) [
  | inl k ↦ rw (k, ==_refl s.id) refl
  | inr k ↦ rw (k, k) (find-replaced t s (rw k at h))
]

-- The rows of other schedules.
abbrev pub others : ℕ → Table → Table
others id t = Prelude.filter (λ r. not (has_schedule_id id r)) t

others-replaced :
    (t : Table) (s : ScheduleRow)
    → others s.id (update_if (has_schedule_id s.id) (λ _. s) t) ≡ others s.id t
unfolding update_if
others-replaced [] s = refl
others-replaced (q ∷ t) s =
    let rest = others-replaced t s in
    elim (Bool-cases (has_schedule_id s.id q)) [
      | inl k ↦ rw (k, ==_refl s.id) rest
      | inr k ↦ rw (k, k) (ap (λ u. q ∷ u) rest)
    ]

-- A rewrite that succeeds leaves the new row under its id, and every other row as it was.
pub rewrite-stored :
    (t : Table) (s r : ScheduleRow) {x : ScheduleRow}
    → get t s.id ≡ ok r
    → (rewrite t s).1 ≡ ok x
    → (get (rewrite t s).0 s.id ≡ ok s) × (others s.id (rewrite t s).0 ≡ others s.id t)
unfolding rewrite
rewrite-stored t s r g h = elim (Bool-cases (any (clashes s) t)) [
  | inl k ↦ absurd (cc (rw k at h))
  | inr k ↦ rw k (
    unfold get in ap (or_fault not_found) (find-replaced t s (get-id t s.id g).1),
    others-replaced t s,
  )
]
