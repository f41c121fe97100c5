-- ===== src/Egress/Examples.antt =====
-- One approval, asked for under a token and answered before its deadline.
use cogitorium.Prelude.{◌≡◌, ◌≢◌, refl, true, some, List, [], ◌∷◌, codes, text_eq}
use cogitorium.Egress.Broker.{ok, Answer, Broker, open_slot, close, expire, decide, send}
use cogitorium.Egress.Events.{Event, opens, closes, expires, receives, resolves, sends, step, run}
use cogitorium.Egress.Final.{idle, decided_once, given_up_is_final, send_never_blocks}

abbrev yes : Answer
yes = record { allow = true; user_id = 1 }

abbrev asked : List Event
asked = opens (codes "t1") 10 ∷ []

abbrev decided_events : List Event
decided_events = opens (codes "t1") 10 ∷ resolves (codes "t1") yes 5 ∷ []

decided_once_example :
    (decide
      (run (step (run idle asked) (resolves (codes "t1") yes 5)) (sends ∷ receives 0 ∷ [])).broker
      (codes "t1")
      6).1
    ≢ ok 0
unfolding run step open_slot decide text_eq
decided_once_example =
    decided_once asked (sends ∷ receives 0 ∷ []) (codes "t1") yes 5 0 (codes "t1") 6 refl

given_up_is_final_example :
    (decide (run (step (run idle asked) (expires 0)) []).broker (codes "t1") 6).1 ≢ ok 0
unfolding run step open_slot
given_up_is_final_example = given_up_is_final asked [] 0 (codes "t1") 6 refl

send_never_blocks_example : (b : Broker) × (send (run idle decided_events).broker 0 yes ≡ some b)
unfolding run step open_slot decide text_eq
send_never_blocks_example = send_never_blocks decided_events 0 yes [] refl

-- A turn can give up between a decision and its send: the decision was reported as taken, and waits
-- in the channel of a request that nobody reads.
decision_unread :
    ((decide (run idle asked).broker (codes "t1") 5).1 ≡ ok 0)
    × (((run idle (
            opens (codes "t1") 10
            ∷ resolves (codes "t1") yes 5
            ∷ expires 0
            ∷ closes (codes "t1")
            ∷ sends
            ∷ [])).broker.heap
          0).channel
        ≡ some yes)
unfolding run step open_slot decide text_eq expire close send
decision_unread = (refl, refl)
