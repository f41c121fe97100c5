-- ===== src/Secrets/Kept.antt =====
-- The whole of Redactor.String and of a Stream, over the values that NewRedactor is given.
use cogitorium.Prelude.{
  ◌≤◌, ◌≡◌, ap, false, not, Text, List, [], ◌∷◌, is_empty, length, ltb, filter, Memᴰ,
  mem-filter_of_mem, mem-sort_by, arith,
}
use cogitorium.Secrets.Redact.{new_redactor, redact, longest, stream}
use cogitorium.Secrets.Hidden.{occurs, IsPlain, occurs-each}
use cogitorium.Secrets.Stream.{occurs-stream, redact-values}

mem-kept :
    (vs : List Text) (v : Text)
    → Memᴰ v vs
    → is_empty v ≡ false
    → Memᴰ v (filter (λ u. not (is_empty u)) vs)
mem-kept vs v m h = mem-filter_of_mem (λ u. not (is_empty u)) vs m (ap not h)

mem-new_redactor :
    (vs : List Text) (v : Text) → Memᴰ v vs → is_empty v ≡ false → Memᴰ v (new_redactor vs).values
unfolding new_redactor
mem-new_redactor vs v m h =
    mem-sort_by (λ u w. ltb (length w) (length u)) (filter (λ u. not (is_empty u)) vs)
      (mem-kept vs v m h)

longest-least : (vs : List Text) (v : Text) → Memᴰ v vs → length v ≤ longest vs
longest-least [] v m = elim m [ ]
longest-least (w ∷ vs) v (Memᴰ.head e) = ground (arith, ap length e)
longest-least (w ∷ vs) v (Memᴰ.tail m) = ground (arith, longest-least vs v m)

max_len-least :
    (vs : List Text) (v : Text)
    → Memᴰ v vs
    → is_empty v ≡ false
    → length v ≤ (new_redactor vs).max_len
unfolding new_redactor
max_len-least vs v m h = longest-least (filter (λ u. not (is_empty u)) vs) v (mem-kept vs v m h)

-- Whatever the text and the other values of the run, a value of the run that is not empty, has no
-- square bracket and is no part of the word `redacted` stands nowhere in what String returns.
pub occurs-redact :
    (vs : List Text) (v s : Text)
    → Memᴰ v vs
    → IsPlain v
    → occurs v (redact (new_redactor vs) s) ≡ false
occurs-redact vs v s m p =
    rw (redact-values (new_redactor vs) s)
      (occurs-each (new_redactor vs).values v s (mem-new_redactor vs v m p.some_text) p)

-- However a run's output is cut into chunks, a value of the run that is not empty, has no square
-- bracket, is no part of the word `redacted` and is at most 4,097 bytes long stands nowhere in all
-- that the stream puts out, its flush included.
pub occurs-new_stream :
    (vs : List Text) (v : Text) (ts : List Text)
    → Memᴰ v vs
    → IsPlain v
    → length v ≤ 4097
    → occurs v (stream (new_redactor vs) [] ts) ≡ false
occurs-new_stream vs v ts m p h =
    occurs-stream (new_redactor vs) v ts
      record {
        listed = mem-new_redactor vs v m p.some_text;
        in_longest = max_len-least vs v m p.some_text;
        in_hold = h;
      }
      p
