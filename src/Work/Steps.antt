-- ===== src/Work/Steps.antt =====
-- Any sequence of the queue's operations, with the clock at each call.
use cogitorium.Prelude.{
  ℕ, ◌≤◌, ◌≡◌, refl, Bool, false, List, [], ◌∷◌, arith, Bool-cases, inl, inr, Text, is_empty,
}
use cogitorium.Work.Rows.{
  WorkUnit, Table, State, done, dead, is_claimed, Insert, stored, check_failed, unique_failed,
  insert, update, same_key, next_id,
}
use cogitorium.Work.Counting.{not_any_of_count}
use cogitorium.Work.Store.{
  Request, enqueue, enqueued, claim, claim_now, claimed_reply, settle, kill, release_claims, prune,
  finish_row, queued_row, claimed_row, depth, claimed_with, live_with, claimed_anywhere,
  restart_text,
}
use cogitorium.Work.Invariant.{
  WellFormed, empty-WellFormed, insert-WellFormed, update-WellFormed, delete-WellFormed,
  claim_update-WellFormed,
}
use cogitorium.Work.Claim.{claim_takes_oldest}

pub data Op : Type 0 where
  do_enqueue do_claim_now : Request → Op
  do_claim do_release : Op
  do_settle do_kill : ℕ → Text → Op
  do_prune : ℕ → Op

unfoldable pub step : Table → ℕ → Op → Table
step t now (do_enqueue u) = (enqueue t u now).0
step t now (do_claim_now u) = (claim_now t u now).0
step t now do_claim = (claim t now).0
step t now do_release = (release_claims t now).0
step t now (do_settle id text) = (settle t id text now).0
step t now (do_kill id reason) = (kill t id reason now).0
step t now (do_prune older_than) = (prune t older_than now).0

unfoldable pub run : Table → List (ℕ × Op) → Table
run t [] = t
run t ((now, op) ∷ ops) = run (step t now op) ops

module _ (P : Table → Type 0) (t : Table) (u : Request) where
  enqueued_keeps :
      (id : ℕ) (i : Insert) → ((t' : Table) → i ≡ stored t' → P t') → P t → P (enqueued t u id i).0
  enqueued_keeps id (stored t') h w = h t' refl
  enqueued_keeps id check_failed h w = w
  enqueued_keeps id unique_failed h w = w

  claimed_reply_keeps :
      (id : ℕ) (i : Insert)
      → ((t' : Table) → i ≡ stored t' → P t')
      → P t
      → P (claimed_reply t id i).0
  claimed_reply_keeps id (stored t') h w = h t' refl
  claimed_reply_keeps id check_failed h w = w
  claimed_reply_keeps id unique_failed h w = w

  -- What the insert keeps, and the table already had, Enqueue keeps.
  pub enqueue_keeps :
      (now : ℕ)
      → ((t' : Table) → insert t (queued_row u (next_id t) now) ≡ stored t' → P t')
      → P t
      → P (enqueue t u now).0
  unfolding enqueue
  enqueue_keeps now h w = elim (Bool-cases (is_empty u.lane)) [
    | inl e ↦ rw e w
    | inr e ↦ rw e (enqueued_keeps (next_id t) _ h w)
  ]

  pub claim_now_keeps :
      (now : ℕ)
      → ((t' : Table) → insert t (claimed_row u (next_id t) now) ≡ stored t' → P t')
      → P t
      → P (claim_now t u now).0
  unfolding claim_now
  claim_now_keeps now h w = elim (Bool-cases (is_empty u.lane)) [
    | inl e ↦ rw e w
    | inr e ↦ rw e (claimed_reply_keeps (next_id t) _ h w)
  ]

claim-WellFormed : (t : Table) (now : ℕ) → WellFormed t → WellFormed (claim t now).0
unfolding depth
claim-WellFormed t now wf = elim (claim_takes_oldest t now) [
  | inl (w, m, ready, least, e) ↦
      rw e (claim_update-WellFormed t now w m (not_any_of_count _ t ready.lane_free) wf)
  | inr (_, e) ↦ rw e wf
]

finish-WellFormed :
    (p : WorkUnit → Bool) (s : State) (text : Text) (now : ℕ) (t : Table)
    → is_claimed s ≡ false
    → WellFormed t
    → WellFormed (update p (finish_row s text now) t)
unfolding finish_row
finish-WellFormed p s text now t h w =
    update-WellFormed p _ t (λ l r k. ground arith) (λ k i key r. unfold same_key in refl)
      (λ r. refl) w

pub step-WellFormed : (t : Table) (now : ℕ) (op : Op) → WellFormed t → WellFormed (step t now op)
unfolding step settle kill release_claims prune queued_row claimed_row
step-WellFormed t now (do_enqueue u) w =
    enqueue_keeps WellFormed t u now
      (λ t' q. insert-WellFormed t (queued_row u (next_id t) now) refl q w) w
step-WellFormed t now (do_claim_now u) w =
    claim_now_keeps WellFormed t u now
      (λ t' q. insert-WellFormed t (claimed_row u (next_id t) now) refl q w) w
step-WellFormed t now do_claim w = claim-WellFormed t now w
step-WellFormed t now do_release w =
    finish-WellFormed claimed_anywhere dead restart_text now t refl w
step-WellFormed t now (do_settle id text) w =
    finish-WellFormed (claimed_with id) done text now t refl w
step-WellFormed t now (do_kill id reason) w =
    finish-WellFormed (live_with id) dead reason now t refl w
step-WellFormed t now (do_prune older_than) w = delete-WellFormed _ t w

-- Whatever operations run, in whatever order and at whatever times, on a table that has at most one
-- claimed unit to a lane, one unit to an idempotency key of a kind and workspace, and one to an id,
-- it still has.
pub run-WellFormed : (t : Table) (ops : List (ℕ × Op)) → WellFormed t → WellFormed (run t ops)
unfolding run
run-WellFormed t [] w = w
run-WellFormed t ((now, op) ∷ ops) w =
    run-WellFormed (step t now op) ops (step-WellFormed t now op w)

-- From the empty queue, no sequence of operations ever shows more than one unit running in a lane.
pub lane_runs_one : (ops : List (ℕ × Op)) (lane : Text) → (depth (run [] ops) lane).1 ≤ 1
unfolding depth
lane_runs_one ops lane = (run-WellFormed [] ops empty-WellFormed).lanes lane
