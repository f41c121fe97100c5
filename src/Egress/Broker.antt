-- ===== src/Egress/Broker.antt =====
-- internal/egress/broker.go: the rendezvous of a paused turn and the request that answers it. A
-- request is shared by pointer: a pointer is a number, and the heap says what it points at. The part
-- of Resolve under the lock and its send on the channel are two steps, and each case of Wait's select
-- is one.
use cogitorium.Prelude.{
  ℕ, suc, Bool, true, false, not, Option, none, some, ◌==◌, ltb, if◌then◌else◌, Text, text_eq,
}

pub data Err : Type 0 where
  busy unknown already_closed timed_out : Err

pub data Result {ℓ} (A : Type ℓ) : Type ℓ where
  ok : A → Result A
  err : Err → Result A

-- `Answer`, its decision and who made it
pub record Answer : Type 0 where
  pub allow : Bool
  pub user_id : ℕ

-- what the broker reads and writes of a Request; the channel has room for one answer
pub record Request : Type 0 where
  pub token : Text
  pub deadline : ℕ
  pub answered : Bool
  pub channel : Option Answer

-- the broker's slot, what pointers point at, and the next pointer that nobody has
pub record Broker : Type 0 where
  pub cur : Option ℕ
  pub heap : ℕ → Request
  pub fresh : ℕ

abbrev pub put : ℕ → Request → (ℕ → Request) → ℕ → Request
put p r heap q = if q == p then r else heap q

abbrev pub points_at : Option ℕ → ℕ → Bool
points_at none p = false
points_at (some q) p = q == p

abbrev pub open_in : Option ℕ → Broker → Text → ℕ → Broker × Result ℕ
open_in (some p) b token deadline = (b, err busy)
open_in none b token deadline = (
  record {
    cur = some b.fresh;
    heap =
        put b.fresh
          (record { token = token; deadline = deadline; answered = false; channel = none }) b.heap;
    fresh = suc b.fresh;
  },
  ok b.fresh,
)

-- Open, of a new request
unfoldable pub open_slot : Broker → Text → ℕ → Broker × Result ℕ
open_slot b token deadline = open_in b.cur b token deadline

abbrev pub close_in : Option ℕ → Broker → Text → Broker
close_in none b token = b
close_in (some p) b token = if text_eq (b.heap p).token token then record b { cur = none } else b

-- Close
unfoldable pub close : Broker → Text → Broker
close b token = close_in b.cur b token

abbrev pub mark : Broker → ℕ → Broker
mark b p = record b { heap = put p (record (b.heap p) { answered = true }) b.heap }

-- Wait, when the timer fires or the context ends: a request that still has the slot is closed
unfoldable pub expire : Broker → ℕ → Broker
expire b p = if points_at b.cur p then mark b p else b

-- Wait, when the channel has an answer
unfoldable pub receive : Broker → ℕ → Broker × Option Answer
receive b p =
    (record b { heap = put p (record (b.heap p) { channel = none }) b.heap }, (b.heap p).channel)

abbrev pub decide_in : Option ℕ → Broker → Text → ℕ → Broker × Result ℕ
decide_in none b token now = (b, err unknown)
decide_in (some p) b token now =
    if not (text_eq (b.heap p).token token)
    then (b, err unknown)
    else if (b.heap p).answered
    then (b, err already_closed)
    else if ltb (b.heap p).deadline now
    then (b, err timed_out)
    else (mark b p, ok p)

-- Resolve, under the lock
unfoldable pub decide : Broker → Text → ℕ → Broker × Result ℕ
decide b token now = decide_in b.cur b token now

abbrev pub send_in : Option Answer → Broker → ℕ → Answer → Option Broker
send_in (some other) b p a = none
send_in none b p a =
    some (record b { heap = put p (record (b.heap p) { channel = some a }) b.heap })

-- Resolve, the send: `none` where it would block
unfoldable pub send : Broker → ℕ → Answer → Option Broker
send b p a = send_in (b.heap p).channel b p a
