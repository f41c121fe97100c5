-- ===== src/Work/Examples.antt =====
-- The queue's theorems on small tables: one chat lane, and one delivery that waits.
use cogitorium.Prelude.{
  ◌≢◌, All, ℕ, ◌≡◌, ◌≤◌, ◌⊎◌, refl, true, none, some, List, [], ◌∷◌, ◌++◌, arith, Text, codes,
  count, text_eq, Memᴰ, All,
}
use cogitorium.Work.Rows.{
  done, WorkUnit, Table, has_id, update, next_id, known_kind, insert, lane_taken, key_taken,
  same_key,
}
use cogitorium.Work.Store.{
  Request, ok, duplicate, err, not_found, queued_row, claimed_row, enqueue, claim, claim_row,
  claim_now, settle, depth, total_depth, get, finish_row, update_or_missing,
}
use cogitorium.Work.Invariant.{WellFormed, empty-WellFormed}
use cogitorium.Work.Claim.{IsReady, Precedes, claim_takes_oldest}
use cogitorium.Work.Steps.{
  Op, do_enqueue, do_claim_now, do_settle, do_prune, step, run, run-WellFormed, lane_runs_one,
}
use cogitorium.Work.Life.{settled_is_final}
use cogitorium.Work.Store.{claim_attempt, claim_id}
use cogitorium.Work.Rows.{oldest_runnable, first_by_order, runnable}
use cogitorium.Work.Single.{claimed_once}
use cogitorium.Work.Worked.{Worked}
use cogitorium.Work.Keys.{enqueue_once}
use cogitorium.Work.Pool.{returned, work_off}
use cogitorium.Work.Progress.{work_off_leaves_none}

abbrev lane_7 : Text
lane_7 = codes "ws:7"

abbrev delivery : Request
delivery = record {
  kind = codes "delivery";
  workspace_id = 7;
  lane = codes "ws:7";
  args = [];
  idem_key = codes "k1";
  run_id = none;
  run_after = none;
  deadline = none;
  max_attempts = 0;
}

abbrev chat : Request
chat = record {
  kind = codes "chat";
  workspace_id = 7;
  lane = codes "ws:7";
  args = [];
  idem_key = [];
  run_id = none;
  run_after = none;
  deadline = none;
  max_attempts = 0;
}

-- the delivery, as it waits from time 5
abbrev waits : WorkUnit
waits = queued_row delivery 1 5

abbrev one_waiting : Table
one_waiting = waits ∷ []

-- the chat turn, running from time 6
abbrev runs : WorkUnit
runs = claimed_row chat 2 6

abbrev two_rows : Table
two_rows = waits ∷ runs ∷ []

abbrev one_waiting_ops : List (ℕ × Op)
one_waiting_ops = (5, do_enqueue delivery) ∷ []

abbrev two_rows_ops : List (ℕ × Op)
two_rows_ops = (5, do_enqueue delivery) ∷ (6, do_claim_now chat) ∷ []

reaches_one_waiting : run [] one_waiting_ops ≡ one_waiting
unfolding run step enqueue insert known_kind lane_taken key_taken next_id queued_row get text_eq
reaches_one_waiting = refl

one_waiting-WellFormed : WellFormed one_waiting
one_waiting-WellFormed =
    let h = run-WellFormed [] one_waiting_ops empty-WellFormed in rw reaches_one_waiting at h

reaches_two_rows : run [] two_rows_ops ≡ two_rows
unfolding run step enqueue claim_now insert known_kind lane_taken key_taken next_id queued_row
    claimed_row get same_key text_eq
reaches_two_rows = refl

two_rows-WellFormed : WellFormed two_rows
two_rows-WellFormed =
    let h = run-WellFormed [] two_rows_ops empty-WellFormed in rw reaches_two_rows at h

lane_runs_one_example : (depth (run [] two_rows_ops) lane_7).1 ≤ 1
lane_runs_one_example = lane_runs_one two_rows_ops lane_7

claim_takes_oldest_example :
    ((w : WorkUnit) × Memᴰ w one_waiting
      × IsReady one_waiting 9 w
      × ((v : WorkUnit) → Memᴰ v one_waiting → IsReady one_waiting 9 v → ¬ (Precedes v w))
      × (claim one_waiting 9
          ≡ (update (has_id w.id) (claim_row 9) one_waiting, ok (claim_row 9 w))))
    ⊎ (((v : WorkUnit) → Memᴰ v one_waiting → ¬ (IsReady one_waiting 9 v))
        × (claim one_waiting 9 ≡ (one_waiting, err not_found)))
claim_takes_oldest_example = claim_takes_oldest one_waiting 9

-- two deliveries that wait in two lanes
abbrev other_delivery : Request
other_delivery = record delivery { lane = codes "ws:8"; idem_key = codes "k2" }

abbrev two_waiting : Table
two_waiting = queued_row delivery 1 5 ∷ queued_row other_delivery 2 6 ∷ []

first_claimed : (claim two_waiting 9).1 ≡ ok (claim_row 9 (queued_row delivery 1 5))
unfolding claim run step settle queued_row claim_row claim_attempt oldest_runnable first_by_order
    update runnable text_eq claim_id finish_row
first_claimed = refl

second_claimed :
    (claim (run (claim two_waiting 9).0 ((10, do_settle 1 []) ∷ [])) 11).1
    ≡ ok (claim_row 11 (queued_row other_delivery 2 6))
unfolding claim run step settle queued_row claim_row claim_attempt oldest_runnable first_by_order
    update runnable text_eq claim_id finish_row
second_claimed = refl

claimed_once_example :
    (claim_row 11 (queued_row other_delivery 2 6)).id ≢ (claim_row 9 (queued_row delivery 1 5)).id
claimed_once_example =
    claimed_once two_waiting 9 (claim_row 9 (queued_row delivery 1 5)) ((10, do_settle 1 []) ∷ [])
      11 (claim_row 11 (queued_row other_delivery 2 6)) first_claimed refl second_claimed

-- the chat turn, settled at time 8
abbrev settled_ops : List (ℕ × Op)
settled_ops = (6, do_claim_now chat) ∷ (8, do_settle 1 []) ∷ []

abbrev settled_chat : WorkUnit
settled_chat = finish_row done [] 8 (claimed_row chat 1 6)

reaches_settled : run [] settled_ops ≡ settled_chat ∷ []
unfolding run step claim_now insert known_kind lane_taken key_taken next_id claimed_row get settle
    update_or_missing finish_row update text_eq
reaches_settled = refl

settled-WellFormed : WellFormed (settled_chat ∷ [])
settled-WellFormed =
    let h = run-WellFormed [] settled_ops empty-WellFormed in rw reaches_settled at h

settled_is_final_example : Memᴰ settled_chat (step (settled_chat ∷ []) 20 (do_prune 15))
unfolding finish_row claimed_row text_eq
settled_is_final_example =
    settled_is_final (settled_chat ∷ []) 20 (do_prune 15) settled_chat settled-WellFormed
      (Memᴰ.head refl) refl (omega arith)

enqueue_once_example :
    (count (same_key (codes "delivery") 7 (codes "k1")) two_rows ≡ 0)
      × (enqueue two_rows delivery 9 ≡ (
        two_rows ++ queued_row delivery (next_id two_rows) 9 ∷ [],
        ok (queued_row delivery (next_id two_rows) 9),
      ))
    ⊎ ((r : WorkUnit) × Memᴰ r two_rows
        × (same_key (codes "delivery") 7 (codes "k1") r ≡ true)
        × (enqueue two_rows delivery 9 ≡ (two_rows, duplicate r)))
unfolding known_kind text_eq
enqueue_once_example = enqueue_once two_rows delivery 9 refl refl refl

-- the same key with another lane, run, time and number of attempts
abbrev second_delivery : Request
second_delivery = record delivery {
  lane = codes "ws:8";
  run_id = some 4;
  run_after = some 30;
  max_attempts = 2;
}

work_off_leaves_none_example :
    All
      (λ v. ¬ (IsReady (work_off 2 one_waiting 9 (λ u. returned)) 9 v))
      (work_off 2 one_waiting 9 (λ u. returned))
    × Worked (λ u. returned) 9 one_waiting (work_off 2 one_waiting 9 (λ u. returned))
unfolding total_depth queued_row text_eq
work_off_leaves_none_example =
    work_off_leaves_none 2 one_waiting 9 (λ u. returned) one_waiting-WellFormed (omega arith)
