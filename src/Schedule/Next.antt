-- ===== src/Schedule/Next.antt =====
-- internal/schedule/spec.go: the next firing. An instant is a number of nanoseconds, and a zone's
-- calendar gives the fields of each whole minute: package time and its zone data are a parameter.
use cogitorium.Prelude.{
  ℕ, zero, suc, ◌+◌, ◌*◌, ◌/◌, Bool, true, false, not, ◌&&◌, ◌||◌, Option, none, some, List, [],
  ◌∷◌, ◌==◌, leb, if◌then◌else◌, ℤ, pos, negsuc,
}
use cogitorium.Schedule.Spec.{Spec}

-- what `matches` reads of a time
pub record Civil : Type 0 where
  pub minute : ℕ
  pub hour : ℕ
  pub day : ℕ
  pub month : ℕ
  pub weekday : ℕ

-- the minutes since the epoch, read in a zone
abbrev pub Calendar : Type 0
Calendar = ℕ → Civil

abbrev pub is_value : ℕ → ℤ → Bool
is_value v (pos n) = n == v
is_value v (negsuc n) = false

-- set[v]
abbrev pub holds : List ℤ → ℕ → Bool
holds [] v = false
holds (x ∷ xs) v = is_value v x || holds xs v

abbrev pub any_value : List ℤ → Bool
any_value [] = true
any_value (x ∷ xs) = false

-- `in`
abbrev pub in_set : List ℤ → ℕ → Bool
in_set set v = any_value set || holds set v

-- the switch at the end of `matches`
unfoldable pub day_matches : Spec → Civil → Bool
day_matches s t =
    if not (any_value s.days) && not (any_value s.weekdays)
    then holds s.days t.day || holds s.weekdays t.weekday
    else if not (any_value s.days)
    then holds s.days t.day
    else if not (any_value s.weekdays)
    then holds s.weekdays t.weekday
    else true

unfoldable pub matches : Spec → Civil → Bool
unfolding day_matches
matches s t =
    if not (in_set s.minutes t.minute)
      || not (in_set s.hours t.hour)
      || not (in_set s.months t.month)
    then false
    else day_matches s t

-- a minute, in nanoseconds
abbrev pub minute_ns : ℕ
minute_ns = 60000000000

-- the loop of `Next`, over the minutes left until the limit
unfoldable pub search_from : ℕ → Spec → Calendar → ℕ → Option ℕ
search_from zero s cal t = none
search_from (suc left) s cal t = elim (matches s (cal t)) [
  | true ↦ some t
  | false ↦ search_from left s cal (t + 1)
]

-- 366 days of minutes
unfoldable pub horizon : ℕ
horizon = 366 * 24 * 60

abbrev pub at_minute : Option ℕ → Option ℕ
at_minute none = none
at_minute (some t) = some (t * minute_ns)

unfoldable pub next_cron : Spec → ℕ → Calendar → Option ℕ
next_cron s after cal = at_minute (search_from horizon s cal (after / minute_ns + 1))

-- Next
unfoldable pub next : Spec → ℕ → Calendar → Option ℕ
unfolding next_cron
next s after cal =
    if not s.cron
    then (if leb s.every 0 then none else some (after + s.every))
    else next_cron s after cal
