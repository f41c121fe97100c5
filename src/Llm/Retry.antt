-- ===== src/Llm/Retry.antt =====
-- internal/llm/retry.go: which answers of a provider are asked for again, and after which wait. A
-- duration is a signed number of nanoseconds in 64 bits.
use cogitorium.Prelude.{
  ℕ, zero, suc, ◌+◌, ◌-◌, ◌*◌, ◌%◌, Bool, not, ◌||◌, Option, none, some, List, [], ◌∷◌, leb, ltb,
  ◌==◌, if◌then◌else◌, Text, is_empty, trim_space, ℤ, pos, negsuc, atoi,
}
use Prim.Native.Nat.{◌^◌}

abbrev pub second : ℕ
second = 1000000000

abbrev pub max_attempts : ℕ
max_attempts = 3

-- backoff, with nothing past its end
abbrev pub backoff : ℕ → Option ℤ
backoff zero = some (pos (2 * second))
backoff (suc zero) = some (pos (6 * second))
backoff (suc (suc n)) = none

abbrev pub max_retry_after : ℕ
max_retry_after = 30 * second

pub record ProviderError : Type 0 where
  pub status : ℕ
  pub body : Text
  pub provider : Text

-- what the code reads of an http.Response; `retry_after` is "" where the header is absent
pub record Response : Type 0 where
  pub code : ℕ
  pub retry_header : Text
  pub content : Text

abbrev pub is_retryable : ℕ → Bool
is_retryable c = c == 429 || c == 500 || c == 502 || c == 503 || c == 504

abbrev pub first_bytes : ℕ → Text → Text
first_bytes zero s = []
first_bytes (suc n) [] = []
first_bytes (suc n) (c ∷ s) = c ∷ first_bytes n s

abbrev pub http_error_of : Response → Text → ProviderError
http_error_of r p = record {
  status = r.code;
  body = trim_space (first_bytes 2048 r.content);
  provider = p;
}

-- an int64 of the low 64 bits
abbrev pub wrapped_int : ℕ → ℤ
wrapped_int n =
    let low = n % 2 ^ 64 in if ltb low (2 ^ 63) then pos low else negsuc (2 ^ 64 - 1 - low)

-- min(d, maxRetryAfter)
abbrev pub at_most : ℤ → ℤ
at_most (pos n) = if leb n max_retry_after then pos n else pos max_retry_after
at_most (negsuc n) = negsuc n

-- max(d, 0)
abbrev pub from_now : ℤ → ℤ
from_now (pos n) = pos n
from_now (negsuc n) = pos 0

abbrev pub date_wait : Option ℤ → Option ℤ
date_wait none = none
date_wait (some d) = some (at_most (from_now d))

abbrev pub stated_wait : Option ℤ → Option ℤ → Option ℤ
stated_wait (some (pos secs)) date = some (at_most (wrapped_int (secs * second)))
stated_wait (some (negsuc n)) date = none
stated_wait none date = date_wait date

-- retryAfter; `until` is time.Until of http.ParseTime
unfoldable pub retry_after : (Text → Option ℤ) → Text → Option ℤ
unfolding atoi
retry_after until header =
    let v = trim_space header in if is_empty v then none else stated_wait (atoi v) (until v)

abbrev pub or_backoff : Option ℤ → ℕ → Option ℤ
or_backoff (some w) attempt = some w
or_backoff none attempt = backoff (attempt - 1)

-- what `do` gives: an error, or a response
pub data Outcome : Type 0 where
  failed : Text → Outcome
  responded : Response → Outcome

-- what send gives; `no_backoff` is an index out of range, `unfinished` a loop cut short
pub data Sent : Type 0 where
  response : Response → Sent
  lost : Text → Sent
  refused : ProviderError → Sent
  abandoned : ProviderError → Sent
  no_backoff : Sent
  unfinished : Sent

-- the select: `gone` where the context ends first
abbrev pub wait_then : Option ℤ → ProviderError → Bool → Sent × List ℤ → Sent × List ℤ
wait_then none e gone rest = (no_backoff, [])
wait_then (some w) e gone rest = if gone then (abandoned e, w ∷ []) else (rest.0, w ∷ rest.1)

-- `gone`: whether the context ends in the wait after an attempt
module _ (until : Text → Option ℤ) (gone : ℕ → Bool) (provider : Text) where
  -- the body of the loop, with what follows the wait
  unfoldable pub after_call : ℕ → Outcome → Sent × List ℤ → Sent × List ℤ
  unfolding retry_after
  after_call attempt (failed e) rest = (lost e, [])
  after_call attempt (responded r) rest =
      if r.code == 200
      then (response r, [])
      else if not (is_retryable r.code) || leb max_attempts attempt
      then (refused (http_error_of r provider), [])
      else wait_then (or_backoff (retry_after until r.retry_header) attempt)
          (http_error_of r provider) (gone attempt) rest

-- `do_call` gives the outcome of each attempt.
module _ (until : Text → Option ℤ) (gone : ℕ → Bool) (provider : Text) (do_call : ℕ → Outcome) where
  unfoldable pub send_loop : ℕ → ℕ → Sent × List ℤ
  unfolding after_call
  send_loop zero attempt = (unfinished, [])
  send_loop (suc fuel) attempt =
      let rest = send_loop fuel (attempt + 1) in
      after_call until gone provider attempt (do_call attempt) rest

  -- the outcome, and the waits that were begun
  unfoldable pub send : Sent × List ℤ
  unfolding send_loop
  send = send_loop max_attempts 1
