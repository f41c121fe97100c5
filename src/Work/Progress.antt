-- ===== src/Work/Progress.antt =====
-- What a worker does to the table (Pool in internal/work/pool.go).
use mathlib.Core.Path.{subst}
use cogitorium.Prelude.{
  ◌∙◌, All, All-of_mem, ℕ, zero, suc, ◌+◌, ◌<◌, ◌≡◌, ap, refl, true, false, not, ◌&&◌, [], ◌∷◌,
  arith, count, any, filter, ◌==◌, inl, inr, Memᴰ, count_pos, ==_refl,
}
use cogitorium.Work.Rows.{WorkUnit, Table, queued, done, has_id, update}
use cogitorium.Work.Counting.{count-update_drop, count-update_eq, count-update_zero}
use cogitorium.Work.Store.{
  Reply, ok, err, not_found, claim, claim_row, settle, claimed_with, finish_row, queued_anywhere,
  total_depth,
}
use cogitorium.Work.Claim.{IsReady, claim_takes_oldest}
use cogitorium.Work.Invariant.{WellFormed}
use cogitorium.Work.Steps.{do_claim, do_settle, step, step-WellFormed}
use cogitorium.Work.Worked.{Worked, Worked_refl, Worked_trans, settled-Worked, one_row}
use cogitorium.Work.Pool.{Outcome, Running, settle_text, cancel, begin, end, work_off}

any-filter-not :
    (id : ℕ) (running : Running) → any (λ i. i == id) (filter (λ i. not (i == id)) running) ≡ false
any-filter-not id [] = refl
any-filter-not id (i ∷ running) = ground (arith, any-filter-not id running)

-- However the runner ends, and whatever became of the row meanwhile, afterwards no claimed row has
-- the unit's id, a cancel finds nothing to interrupt, and while the unit was in flight a cancel
-- found it.
pub end_releases :
    (t : Table) (running : Running) (u : WorkUnit) (outcome : Outcome) (now : ℕ)
    → (cancel (begin running u) u.id ≡ true)
      × (count (claimed_with u.id) (end t (begin running u) u outcome now).0 ≡ 0)
      × (cancel (end t (begin running u) u outcome now).1 u.id ≡ false)
unfolding cancel begin end settle finish_row
end_releases t running u outcome now = (
  ground (arith, ==_refl u.id),
  count-update_zero (claimed_with u.id) (claimed_with u.id) _ t (λ r e. ground arith) (λ r e. e),
  any-filter-not u.id (u.id ∷ filter (λ i. not (i == u.id)) running),
)

queued-claim :
    (t : Table) (w : WorkUnit) (now : ℕ)
    → Memᴰ w t
    → w.state ≡ queued
    → count queued_anywhere (update (has_id w.id) (claim_row now) t) < count queued_anywhere t
unfolding claim_row
queued-claim t w now m waits =
    let drop : count queued_anywhere (update (has_id w.id) (claim_row now) t)
          + count (λ r. has_id w.id r && queued_anywhere r) t
        ≡ count queued_anywhere t =
      count-update_drop (has_id w.id) queued_anywhere (claim_row now) t (λ r e. refl) in
    let here : 0 < count (λ r. has_id w.id r && queued_anywhere r) t =
      count_pos _ t m (ground (arith, ==_refl w.id)) in
    omega arith

queued-end :
    (t : Table) (u : WorkUnit) (outcome : Outcome) (now : ℕ)
    → count queued_anywhere (end t [] u outcome now).0 ≡ count queued_anywhere t
unfolding end settle finish_row
queued-end t u outcome now =
    count-update_eq (claimed_with u.id) queued_anywhere (finish_row done (settle_text outcome) now)
      t (λ r e. ground arith)

work_off_step :
    (fuel : ℕ) (t : Table) (now : ℕ) (runner : WorkUnit → Outcome) (u : WorkUnit) (t' : Table)
    → claim t now ≡ (t', ok u)
    → work_off (suc fuel) t now runner ≡ work_off fuel (end t' [] u (runner u) now).0 now runner
unfolding work_off
work_off_step fuel t now runner u t' e =
    rw (e, work_off)
      (ap (λ (p : Table × Reply). work_off fuel (end p.0 [] u (runner u) now).0 now runner) e)

work_off_stop :
    (fuel : ℕ) (t : Table) (now : ℕ) (runner : WorkUnit → Outcome)
    → claim t now ≡ (t, err not_found)
    → work_off (suc fuel) t now runner ≡ t
unfolding work_off
work_off_stop fuel t now runner e = rw (e, work_off) (ap (λ (p : Table × Reply). p.0) e)

-- A unit that a claim answered with, run and settled.
round-Worked :
    (t : Table) (now : ℕ) (runner : WorkUnit → Outcome) (w : WorkUnit)
    → WellFormed t
    → Memᴰ w t
    → w.state ≡ queued
    → Worked runner now t
        (end
          (update (has_id w.id) (claim_row now) t)
          []
          (claim_row now w)
          (runner (claim_row now w))
          now).0
unfolding end settle claim_row
round-Worked t now runner w wf m waits =
    settled-Worked runner now t w.id (claim_row now w) (λ r mr k.
      let same : r ≡ w = one_row (has_id w.id) t r w (wf.ids w.id) mr m k (==_refl w.id) in
      (ap (λ (x : WorkUnit). x.state) same ∙ waits, ap (claim_row now) same))

round-WellFormed :
    (t t' : Table) (now : ℕ) (rep : Reply) (u : WorkUnit) (outcome : Outcome)
    → claim t now ≡ (t', rep)
    → WellFormed t
    → WellFormed (end t' [] u outcome now).0
unfolding step end
round-WellFormed t t' now rep u outcome e wf =
    step-WellFormed t' now (do_settle u.id (settle_text outcome))
      (subst WellFormed (ap (λ (p : Table × Reply). p.0) e) (step-WellFormed t now do_claim wf))

-- In a table with one claimed unit to a lane, one unit to a key and one to an id, with more rounds
-- than units wait, a worker that nobody disturbs leaves no ready unit behind; and row by row, a unit
-- is as it was, or it waited and is done, with one attempt more and the text of its runner's end.
pub work_off_leaves_none :
    (fuel : ℕ) (t : Table) (now : ℕ) (runner : WorkUnit → Outcome)
    → WellFormed t
    → (total_depth t).0 < fuel
    → All (λ v. ¬ (IsReady (work_off fuel t now runner) now v)) (work_off fuel t now runner)
      × Worked runner now t (work_off fuel t now runner)
unfolding total_depth
work_off_leaves_none zero t now runner wf enough = absurd (omega arith)
work_off_leaves_none (suc fuel) t now runner wf enough = elim (claim_takes_oldest t now) [
  | inl (w, m, ready, least, e) ↦
      let t' : Table = update (has_id w.id) (claim_row now) t in
      let u : WorkUnit = claim_row now w in
      let fewer : count queued_anywhere (end t' [] u (runner u) now).0 < fuel =
        omega (arith, queued-claim t w now m ready.waits, queued-end t' u (runner u) now) in
      let kept : WellFormed (end t' [] u (runner u) now).0 =
        round-WellFormed t t' now (ok u) u (runner u) e wf in
      let (a, b) = work_off_leaves_none fuel (end t' [] u (runner u) now).0 now runner kept fewer in
      rw (work_off_step fuel t now runner u t' e) (
        a,
        Worked_trans runner now t (end t' [] u (runner u) now).0
            (work_off fuel (end t' [] u (runner u) now).0 now runner)
            (round-Worked t now runner w wf m ready.waits) b,
      )
  | inr (none_ready, e) ↦
      rw (work_off_stop fuel t now runner e)
        (All-of_mem (λ v. ¬ (IsReady t now v)) t none_ready, Worked_refl runner now t)
]
