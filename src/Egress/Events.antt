-- ===== src/Egress/Events.antt =====
-- Every interleaving of turns and handlers at the broker, as a sequence of events.
use cogitorium.Prelude.{ℕ, Option, none, some, List, [], ◌∷◌, ◌++◌, Text}
use cogitorium.Egress.Broker.{
  Result, ok, err, Answer, Broker, open_slot, close, expire, receive, decide, send,
}

-- The broker, and the decisions that were taken and not sent yet.
pub record World : Type 0 where
  pub broker : Broker
  pub unsent : List (ℕ × Answer)

pub data Event : Type 0 where
  opens : Text → ℕ → Event
  closes : Text → Event
  expires receives : ℕ → Event
  resolves : Text → Answer → ℕ → Event
  sends overtaken : Event

abbrev pub decided : List (ℕ × Answer) → Answer → Broker × Result ℕ → World
decided unsent a (b, ok p) = record { broker = b; unsent = unsent ++ (p, a) ∷ [] }
decided unsent a (b, err e) = record { broker = b; unsent = unsent }

abbrev pub sent : World → List (ℕ × Answer) → Option Broker → World
sent w rest none = w
sent w rest (some b) = record { broker = b; unsent = rest }

abbrev pub send_first : World → List (ℕ × Answer) → World
send_first w [] = w
send_first w ((p, a) ∷ rest) = sent w rest (send w.broker p a)

-- the handler of the first decision is overtaken by the others
abbrev pub last_first : List (ℕ × Answer) → List (ℕ × Answer)
last_first [] = []
last_first (x ∷ xs) = xs ++ x ∷ []

unfoldable pub step : World → Event → World
step w (opens token deadline) = record w { broker = (open_slot w.broker token deadline).0 }
step w (closes token) = record w { broker = close w.broker token }
step w (expires p) = record w { broker = expire w.broker p }
step w (receives p) = record w { broker = (receive w.broker p).0 }
step w (resolves token a now) = decided w.unsent a (decide w.broker token now)
step w sends = send_first w w.unsent
step w overtaken = record w { unsent = last_first w.unsent }

unfoldable pub run : World → List Event → World
run w [] = w
run w (e ∷ es) = run (step w e) es
