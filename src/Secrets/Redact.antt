-- ===== src/Secrets/Redact.antt =====
-- Redactor and Stream in internal/secrets/redact.go. A text is the list of its bytes.
use cogitorium.Prelude.{
  ◌||◌, ℕ, zero, suc, ◌-◌, Bool, true, false, not, ◌&&◌, List, [], ◌∷◌, ◌++◌, filter, length, leb,
  ltb, ◌==◌, if◌then◌else◌, Text, codes, is_empty, sort_by,
}

-- Placeholder
abbrev pub placeholder : Text
placeholder = codes "[redacted]"

abbrev pub max_hold : ℕ
max_hold = 4096

-- strings.HasPrefix
unfoldable pub starts_with : Text → Text → Bool
starts_with [] s = true
starts_with (c ∷ v) [] = false
starts_with (c ∷ v) (d ∷ s) = c == d && starts_with v s

-- strings.ReplaceAll, left to right: `skip` bytes are still of the occurrence that was replaced
unfoldable pub replace_from : Text → ℕ → Text → Text
unfolding starts_with
replace_from v skip [] = []
replace_from v (suc skip) (c ∷ s) = replace_from v skip s
replace_from v zero (c ∷ s) = elim (starts_with v (c ∷ s)) [
  | true ↦ placeholder ++ replace_from v (length v - 1) s
  | false ↦ c ∷ replace_from v zero s
]

pub record Redactor : Type 0 where
  pub values : List Text
  pub max_len : ℕ

abbrev pub longest : List Text → ℕ
longest [] = 0
longest (v ∷ vs) = let rest = longest vs in if ltb rest (length v) then length v else rest

-- NewRedactor: the empty values are dropped, and the longest come first
unfoldable pub new_redactor : List Text → Redactor
new_redactor values =
    let kept = filter (λ v. not (is_empty v)) values in
    record { values = sort_by (λ v w. ltb (length w) (length v)) kept; max_len = longest kept }

-- the loop of String over the values
unfoldable pub replace_each : List Text → Text → Text
unfolding replace_from
replace_each [] s = s
replace_each (v ∷ vs) s = replace_each vs (replace_from v zero s)

-- Active
abbrev pub is_active : Redactor → Bool
is_active r = elim r.values [ [] ↦ false | v ∷ vs ↦ true ]

-- String
unfoldable pub redact : Redactor → Text → Text
unfolding replace_each
redact r s = if not (is_active r) || is_empty s then s else replace_each r.values s

unfoldable pub drop : ℕ → Text → Text
drop zero s = s
drop (suc n) [] = []
drop (suc n) (c ∷ s) = drop n s

unfoldable pub take : ℕ → Text → Text
take zero s = []
take (suc n) [] = []
take (suc n) (c ∷ s) = c ∷ take n s

abbrev pub smaller : ℕ → ℕ → ℕ
smaller a b = if leb a b then a else b

-- how much of the buffer is held back
unfoldable pub hold : Redactor → Text → ℕ
hold r buf = smaller (smaller (r.max_len - 1) max_hold) (length buf)

-- Chunk, of a stream that carries `carry`: the new carry, and what is put out
unfoldable pub chunk : Redactor → Text → Text → Text × Text
unfolding redact drop take hold
chunk r carry text =
    if not (is_active r)
    then (carry, text)
    else let buf = redact r (carry ++ text) in
      let cut = length buf - hold r buf in (drop cut buf, take cut buf)

-- Flush
unfoldable pub flush : Redactor → Text → Text
unfolding redact
flush r carry = redact r carry

-- the chunks of a run and the flush after them: all that is put out
unfoldable pub stream : Redactor → Text → List Text → Text
unfolding chunk flush
stream r carry [] = flush r carry
stream r carry (text ∷ texts) =
    let (carry', out) = chunk r carry text in out ++ stream r carry' texts
