-- ===== src/Websearch/Query.antt =====
-- ValidateQuery in internal/websearch/policy.go. `is_letter` and `is_number` are unicode.IsLetter
-- and unicode.IsNumber; the answer is the query to send and whether it looks like a blob.
use cogitorium.Prelude.{
  ℕ, ◌+◌, Bool, true, false, ◌||◌, [], ◌∷◌, any, all, ltb, ◌==◌, if◌then◌else◌, Text, codes,
  is_empty, is_space, trim_space, length,
}

pub data Verdict : Type 0 where
  query_empty query_too_long not_printable : Verdict
  sent : Text → Bool → Verdict

abbrev pub max_query_runes : ℕ
max_query_runes = 256

abbrev pub blob_run : ℕ
blob_run = 48

unfoldable pub query_punct : Text
query_punct = codes "-_.,:;!?'\"()[]/+*=#@%&~$|<>"

-- the loop over the runes with the length of the run so far
unfoldable pub flagged_from : ℕ → Text → Bool
unfolding is_space
flagged_from run [] = false
flagged_from run (r ∷ q) =
    let rest = flagged_from (if is_space r then 0 else run + 1) q in
    if is_space r then rest else if ltb blob_run (run + 1) then true else rest

module _ (is_letter is_number : ℕ → Bool) where
  unfoldable pub is_printable : ℕ → Bool
  unfolding query_punct
  is_printable r = r == b' ' || is_letter r || is_number r || any (λ c. c == r) query_punct

  unfoldable pub validate_trimmed : Text → Verdict
  unfolding is_printable flagged_from
  validate_trimmed q =
      if is_empty q
      then query_empty
      else if ltb max_query_runes (length q)
      then query_too_long
      else if all is_printable q
      then sent q (flagged_from 0 q)
      else not_printable

  unfoldable pub validate_query : Text → Verdict
  unfolding validate_trimmed trim_space
  validate_query q = validate_trimmed (trim_space q)
