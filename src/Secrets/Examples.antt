-- ===== src/Secrets/Examples.antt =====
-- Tests of redaction, and its theorems at concrete inputs.
use cogitorium.Prelude.{
  ◌≡◌, refl, false, Text, codes, List, [], ◌∷◌, arith, Memᴰ, text_eq, text_ltb,
}
use cogitorium.Secrets.Redact.{new_redactor, redact, stream, chunk, flush}
use cogitorium.Secrets.Hidden.{occurs, IsPlain}
use cogitorium.Secrets.Tap.{Call, tap}
use cogitorium.Secrets.Apart.{text_to, chunks_to}
use cogitorium.Secrets.Tapped.{text_to-tap}
use cogitorium.Secrets.Kept.{occurs-redact, occurs-new_stream}

abbrev keys : List Text
keys = codes "sk-1" ∷ codes "sk-1-ab" ∷ []

-- A longer value goes whole,
whole_gone : redact (new_redactor keys) (codes "key sk-1-ab.") ≡ codes "key [redacted]."
unfolding new_redactor redact
whole_gone = refl

-- but where a chunk ends with the shorter value, the rest of the longer one is put out.
rest_left :
    stream (new_redactor keys) [] (codes "a sk-1-" ∷ codes "ab z" ∷ []) ≡ codes "a [redacted]-ab z"
unfolding new_redactor stream
rest_left = refl

IsPlain-key : IsPlain (codes "sk-1-ab")
unfolding occurs
IsPlain-key = record { some_text = refl; plain = refl; no_part = refl }

occurs-redact_example :
    occurs (codes "sk-1-ab") (redact (new_redactor keys) (codes "key sk-1-ab.")) ≡ false
occurs-redact_example =
    occurs-redact keys (codes "sk-1-ab") (codes "key sk-1-ab.") (Memᴰ.tail (Memᴰ.head refl))
      IsPlain-key

occurs-new_stream_example :
    occurs (codes "sk-1-ab") (stream (new_redactor keys) [] (codes "key sk-1" ∷ codes "-ab." ∷ []))
    ≡ false
occurs-new_stream_example =
    occurs-new_stream keys (codes "sk-1-ab") (codes "key sk-1" ∷ codes "-ab." ∷ [])
      (Memᴰ.tail (Memᴰ.head refl)) IsPlain-key (omega arith)

abbrev two_pipes : List Call
two_pipes =
    record { to = codes "out"; chunk_text = codes "a sk-" }
    ∷ record { to = codes "err"; chunk_text = codes "b" }
    ∷ record { to = codes "out"; chunk_text = codes "1 z" }
    ∷ []

text_to-tap_example :
    text_to (codes "out") (tap (new_redactor keys) two_pipes)
    ≡ stream (new_redactor keys) [] (chunks_to (codes "out") two_pipes)
text_to-tap_example = text_to-tap (codes "out") (new_redactor keys) two_pipes

apart : text_to (codes "out") (tap (new_redactor keys) two_pipes) ≡ codes "a [redacted] z"
unfolding text_to tap new_redactor chunk flush text_eq text_ltb
apart = refl
