-- ===== src/Llm/Examples.antt =====
-- Tests of the retry, and its theorems at concrete inputs.
use cogitorium.Prelude.{
  ℕ, ◌≡◌, refl, Bool, false, Option, none, some, [], ◌∷◌, Text, codes, ℤ, pos, negsuc, arith, atoi,
  trim_space, ltb, ◌*◌, if◌then◌else◌,
}
use cogitorium.Llm.Retry.{
  second, Response, Outcome, responded, response, retry_after, send, send_loop,
}
use cogitorium.Llm.Sending.{verdict, first_settled}
use cogitorium.Llm.Retried.{Ended, send-Ended, send_answers}

no_date : Text → Option ℤ
no_date s = none

stays : ℕ → Bool
stays n = false

abbrev busy : Response
busy = record { code = 503; retry_header = codes "1"; content = codes "busy" }

abbrev fine : Response
fine = record { code = 200; retry_header = []; content = codes "ok" }

-- a provider that is busy once
abbrev busy_once : ℕ → Outcome
busy_once n = if ltb n 2 then responded busy else responded fine

answered : send no_date stays (codes "p") busy_once ≡ (response fine, pos second ∷ [])
unfolding send retry_after atoi trim_space no_date stays
answered = refl

ten_minutes_cut : retry_after no_date (codes "600") ≡ some (pos (30 * second))
unfolding retry_after atoi trim_space no_date
ten_minutes_cut = refl

-- A header of so many seconds that their nanoseconds leave 64 bits is a wait that is over.
long_wait_over : retry_after no_date (codes "9223372037") ≡ some (negsuc 9223372036709551615)
unfolding retry_after atoi trim_space no_date
long_wait_over = refl

send-Ended_example :
    (send_loop no_date stays (codes "p") busy_once 3 1 ≡ send no_date stays (codes "p") busy_once)
    × Ended 2 (send no_date stays (codes "p") busy_once)
send-Ended_example = send-Ended no_date stays (codes "p") busy_once 3 (omega arith)

stays_lem : (n : ℕ) → stays n ≡ false
unfolding stays
stays_lem n = refl

send_answers_example :
    (send no_date stays (codes "p") busy_once).0 ≡ verdict (codes "p") (first_settled busy_once)
send_answers_example = send_answers no_date stays (codes "p") busy_once stays_lem
