-- ===== src/Secrets/Tap.antt =====
-- Tap in internal/secrets/redact.go: one Stream for each name, over the chunks of all of them. A
-- run is a list of calls, one after the other; the sink is called outside the mutex, and calls that
-- overlap are not modelled.
use cogitorium.Prelude.{
  Bool, Text, List, [], ◌∷◌, ◌++◌, is_empty, text_eq, text_ltb, if◌then◌else◌, sort_by,
}
use cogitorium.Secrets.Redact.{Redactor, is_active, chunk, flush}

-- A name, and what that stream carries.
pub record Carried : Type 0 where
  pub name : Text
  pub carry : Text

-- A call of the sink: the name of the stream, and the chunk.
pub record Call : Type 0 where
  pub to : Text
  pub chunk_text : Text

-- get: a stream that is not there is a new one, which carries nothing.
unfoldable pub carry_of : Text → List Carried → Text
carry_of n [] = []
carry_of n (s ∷ streams) =
    let rest = carry_of n streams in if text_eq s.name n then s.carry else rest

unfoldable pub set_carry : Text → Text → List Carried → List Carried
set_carry n c [] = record { name = n; carry = c } ∷ []
set_carry n c (s ∷ streams) =
    let rest = set_carry n c streams in
    if text_eq s.name n then record { name = s.name; carry = c } ∷ streams else s ∷ rest

-- The sink is called with what is not empty.
unfoldable pub call_with : Text → Text → List Call
call_with n out = if is_empty out then [] else record { to = n; chunk_text = out } ∷ []

-- wrapped, on a stream's chunk: the streams after it, and the calls of the sink
unfoldable pub wrapped : Redactor → List Carried → Text → Text → List Carried × List Call
unfolding carry_of set_carry call_with
wrapped r streams n text =
    let (c, out) = chunk r (carry_of n streams) text in (set_carry n c streams, call_with n out)

-- the loop over the tails
unfoldable pub flush_each : Redactor → List Carried → List Call
unfolding call_with
flush_each r [] = []
flush_each r (s ∷ streams) = call_with s.name (flush r s.carry) ++ flush_each r streams

-- sort.Strings(names)
abbrev pub before : Carried → Carried → Bool
before s t = text_ltb s.name t.name

-- flush, by the names in order
unfoldable pub flush_all : Redactor → List Carried → List Call
unfolding flush_each
flush_all r streams = flush_each r (sort_by before streams)

-- the chunks of a run, and the flush after them
unfoldable pub wrap_all : Redactor → List Carried → List Call → List Call
unfolding wrapped flush_all
wrap_all r streams [] = flush_all r streams
wrap_all r streams (e ∷ es) =
    let (streams', out) = wrapped r streams e.to e.chunk_text in out ++ wrap_all r streams' es

-- Tap over a run. A redactor with nothing to do hands the sink on.
unfoldable pub tap : Redactor → List Call → List Call
unfolding wrap_all
tap r es = if is_active r then wrap_all r [] es else es
