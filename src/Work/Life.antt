-- ===== src/Work/Life.antt =====
-- The life of one unit: queued, claimed once, settled or dead, and then only pruned.
use cogitorium.Prelude.{
  ℕ, ◌-◌, ◌≤◌, ◌<◌, ◌≡◌, refl, Bool, true, false, not, List, [], ◌∷◌, ◌++◌, arith, count, inl, inr,
  Text, All, Memᴰ, mem-filter_of_mem,
}
use cogitorium.Work.Rows.{
  WorkUnit, Table, State, queued, done, dead, is_queued, is_claimed, is_settled, stored, insert,
  update, delete, has_id,
}
use cogitorium.Work.Counting.{
  All-update, All-delete, All-append_one, mem-update_of_not, mem-append_left, id_of_other,
}
use cogitorium.Work.Store.{
  claim, claim_row, settle, kill, release_claims, prune, finish_row, queued_row, claimed_row,
  claimed_with, live_with, claimed_anywhere, restart_text,
}
use cogitorium.Work.Claim.{claim_takes_oldest}
use cogitorium.Work.Invariant.{WellFormed}
use cogitorium.Work.Steps.{
  Op, do_enqueue, do_claim_now, do_claim, do_release, do_settle, do_kill, do_prune, step, run,
  step-WellFormed, enqueue_keeps, claim_now_keeps,
}

-- The counter of attempts is 0 for a unit that waits, and at most 1.
abbrev pub AttemptsFit : WorkUnit → Type 0
AttemptsFit r = (r.state ≡ queued → r.attempts ≡ 0) × (r.attempts ≤ 1)

insert-All :
    (P : WorkUnit → Type 0) (t : Table) (r : WorkUnit) {t' : Table}
    → insert t r ≡ stored t'
    → P r
    → All P t
    → All P t'
unfolding insert
insert-All P t r {t'} e k h =
    let q : t ++ r ∷ [] ≡ t' = ground arith in rw (← q) (All-append_one P t r h k)

finish-AttemptsFit :
    (p : WorkUnit → Bool) (s : State) (text : Text) (now : ℕ) (t : Table)
    → is_queued s ≡ false
    → All AttemptsFit t
    → All AttemptsFit (update p (finish_row s text now) t)
unfolding finish_row
finish-AttemptsFit p s text now t h =
    All-update AttemptsFit p _ t (λ r _ _ k. ((λ e. ground arith), k.1))

waits_of_id :
    (t : Table) (r w : WorkUnit)
    → count (has_id w.id) t ≤ 1
    → Memᴰ r t
    → Memᴰ w t
    → w.state ≡ queued
    → has_id w.id r ≡ true
    → r.state ≡ queued
waits_of_id t r w one mr mw waits same =
    ground (arith, id_of_other (λ s. not (is_queued s.state)) t r w one mr mw)

claim_row-AttemptsFit :
    (r : WorkUnit) (now : ℕ) → r.state ≡ queued → AttemptsFit r → AttemptsFit (claim_row now r)
unfolding claim_row
claim_row-AttemptsFit r now waits fit = ((λ q. ground arith), ground (arith, fit.0 waits))

claim-AttemptsFit :
    (t : Table) (now : ℕ) → WellFormed t → All AttemptsFit t → All AttemptsFit (claim t now).0
claim-AttemptsFit t now wf h = elim (claim_takes_oldest t now) [
  | inl (w, m, ready, least, e) ↦ rw e (
      All-update AttemptsFit (has_id w.id) (claim_row now) t
        (λ r mr k fit.
          claim_row-AttemptsFit r now (waits_of_id t r w (wf.ids w.id) mr m ready.waits k) fit)
        h)
  | inr (_, e) ↦ rw e h
]

step-AttemptsFit :
    (t : Table) (now : ℕ) (op : Op)
    → WellFormed t
    → All AttemptsFit t
    → All AttemptsFit (step t now op)
unfolding step settle kill release_claims prune queued_row claimed_row
step-AttemptsFit t now (do_enqueue u) w h =
    enqueue_keeps (All AttemptsFit) t u now (λ t' q. insert-All AttemptsFit t _ q (omega arith) h) h
step-AttemptsFit t now (do_claim_now u) w h =
    claim_now_keeps (All AttemptsFit) t u now
      (λ t' q. insert-All AttemptsFit t _ q (ground arith) h) h
step-AttemptsFit t now do_claim w h = claim-AttemptsFit t now w h
step-AttemptsFit t now do_release w h =
    finish-AttemptsFit claimed_anywhere dead restart_text now t refl h
step-AttemptsFit t now (do_settle id text) w h =
    finish-AttemptsFit (claimed_with id) done text now t refl h
step-AttemptsFit t now (do_kill id reason) w h =
    finish-AttemptsFit (live_with id) dead reason now t refl h
step-AttemptsFit t now (do_prune older_than) w h = All-delete AttemptsFit _ t h

-- From a table with one claimed unit to a lane, one unit to a key and one to an id, in which the
-- counter of attempts is 0 for what waits and at most 1 for the rest, every sequence of operations
-- leads to a table with such counters.
pub run-AttemptsFit :
    (t : Table) (ops : List (ℕ × Op))
    → WellFormed t
    → All AttemptsFit t
    → All AttemptsFit (run t ops)
unfolding run
run-AttemptsFit t [] w h = h
run-AttemptsFit t ((now, op) ∷ ops) w h =
    run-AttemptsFit (step t now op) ops (step-WellFormed t now op w) (step-AttemptsFit t now op w h)

-- A prune spares what changed after its cutoff; no other operation takes a settled unit away.
abbrev pub Spared : ℕ → Op → WorkUnit → Type 0
Spared now (do_prune older_than) r = now - older_than < r.updated_at
Spared now _ r = Unit

settled_not_claimed : (s : State) → is_settled s ≡ true → is_claimed s ≡ false
settled_not_claimed s h = ground arith

stored_mem :
    (t : Table) (s : WorkUnit) {r : WorkUnit} {t' : Table}
    → insert t s ≡ stored t'
    → Memᴰ r t
    → Memᴰ r t'
unfolding insert
stored_mem t s {r} {t'} e m =
    let q : t ++ s ∷ [] ≡ t' = ground arith in rw (← q) (mem-append_left t s m)

claim_mem :
    (t : Table) (now : ℕ) {r : WorkUnit}
    → WellFormed t
    → Memᴰ r t
    → is_settled r.state ≡ true
    → Memᴰ r (claim t now).0
claim_mem t now {r} wf m settled = elim (claim_takes_oldest t now) [
  | inl (w, mw, ready, least, e) ↦ rw e (
      mem-update_of_not (has_id w.id) (claim_row now) t m (
        id_of_other (λ s. is_settled s.state) t r w (wf.ids w.id) m mw settled
          (ground (arith, ready.waits))))
  | inr (_, e) ↦ rw e m
]

-- In a table with one claimed unit to a lane, one unit to a key and one to an id, a unit that is
-- done or dead stays in the table, unchanged in every field, through every operation but a prune
-- whose cutoff its last change does not come after.
pub settled_is_final :
    (t : Table) (now : ℕ) (op : Op) (r : WorkUnit)
    → WellFormed t
    → Memᴰ r t
    → is_settled r.state ≡ true
    → Spared now op r
    → Memᴰ r (step t now op)
unfolding step settle kill release_claims prune delete
settled_is_final t now (do_enqueue u) r w m s _ =
    enqueue_keeps (Memᴰ r) t u now (λ t' q. stored_mem t _ q m) m
settled_is_final t now (do_claim_now u) r w m s _ =
    claim_now_keeps (Memᴰ r) t u now (λ t' q. stored_mem t _ q m) m
settled_is_final t now do_claim r w m s _ = claim_mem t now w m s
settled_is_final t now do_release r w m s _ =
    mem-update_of_not _ _ t m (settled_not_claimed r.state s)
settled_is_final t now (do_settle id text) r w m s _ = mem-update_of_not _ _ t m (ground arith)
settled_is_final t now (do_kill id reason) r w m s _ = mem-update_of_not _ _ t m (ground arith)
settled_is_final t now (do_prune older_than) r w m s spared = mem-filter_of_mem _ t m (ground arith)
