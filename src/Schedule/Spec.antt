-- ===== src/Schedule/Spec.antt =====
-- internal/schedule/spec.go: reading a spec. Sets of values are lists; the empty one means any.
use cogitorium.Prelude.{
  ℕ, zero, suc, ◌+◌, ◌-◌, ◌*◌, Bool, true, false, ◌||◌, Option, none, some, List, [], ◌∷◌, ◌++◌,
  leb, ltb, if◌then◌else◌, Text, codes, text_eq, trim_space, to_lower, cut_prefix, cut, split, join,
  fields, is_empty, ℤ, pos, negsuc, atoi, max_int,
}
use cogitorium.Schedule.Duration.{parse_duration}

-- Why a spec is refused; a field's error comes with the place of the field.
pub data Err : Type 0 where
  needs_spec not_duration too_fast wrong_fields : Err
  empty_entry not_step not_number not_end out_of_range : ℕ → Err

pub data Result {ℓ} (A : Type ℓ) : Type ℓ where
  ok : A → Result A
  err : Err → Result A

infixl 5 ◌>>=◌
abbrev pub ◌>>=◌ {ℓ κ} : {A : Type ℓ} {B : Type κ} → Result A → (A → Result B) → Result B
ok a >>= f = f a
err e >>= f = err e

pub record Spec : Type 0 where
  pub every : ℕ
  pub minutes : List ℤ
  pub hours : List ℤ
  pub days : List ℤ
  pub months : List ℤ
  pub weekdays : List ℤ
  pub cron : Bool
  pub text : Text

-- MinEvery, in nanoseconds
abbrev pub min_every : ℕ
min_every = 60000000000

-- cronRange
abbrev pub range_min : ℕ → ℕ
range_min zero = 0
range_min (suc zero) = 0
range_min (suc (suc zero)) = 1
range_min (suc (suc (suc zero))) = 1
range_min _ = 0

abbrev pub range_max : ℕ → ℕ
range_max zero = 59
range_max (suc zero) = 23
range_max (suc (suc zero)) = 31
range_max (suc (suc (suc zero))) = 12
range_max _ = 6

-- v += step on a 64-bit int, for a step of at least one and at most max_int
unfoldable pub add_step : ℤ → ℕ → ℤ
add_step (pos v) step =
    if leb (v + step) max_int then pos (v + step) else negsuc (2 * max_int + 1 - (v + step))
add_step (negsuc n) step = if ltb n step then pos (step - n - 1) else negsuc (n - step)

abbrev pub at_most : ℤ → ℕ → Bool
at_most (pos v) hi = leb v hi
at_most (negsuc n) hi = true

-- for v := lo; v <= hi; v += step, on fuel; `none` means that the fuel ran out
unfoldable pub values_from : ℕ → ℤ → ℕ → ℕ → Option (List ℤ)
values_from zero v hi step = none
values_from (suc fuel) v hi step = elim (at_most v hi) [
  | false ↦ some []
  | true ↦ elim (values_from fuel (add_step v step) hi step) [
    | none ↦ none
    | some rest ↦ some (v ∷ rest)
  ]
]

-- what one entry of a comma list stands for
pub record Range : Type 0 where
  pub lo : ℕ
  pub hi : ℕ
  pub step : ℕ

-- enough rounds for every loop of `parse_field`
abbrev pub rounds : ℕ → ℕ
rounds hi = 2 * hi + 4

abbrev pub values : Range → List ℤ
values r = elim (values_from (rounds r.hi) (pos r.lo) r.hi r.step) [ none ↦ [] | some vs ↦ vs ]

-- a step: an int of at least one
abbrev pub step_of : ℕ → Option ℤ → Result ℕ
step_of i none = err (not_step i)
step_of i (some (negsuc n)) = err (not_step i)
step_of i (some (pos n)) = if ltb n 1 then err (not_step i) else ok n

-- the text before a slash, and the step behind it
unfoldable pub parse_step : ℕ → Text → Result (Text × ℕ)
parse_step i part = elim (cut part b'/') [
  | none ↦ ok (part, 1)
  | some (base, step_text) ↦ step_of i (atoi step_text) >>= λ n. ok (base, n)
]

abbrev number_of : ℕ → Option ℤ → Result ℤ
number_of i none = err (not_number i)
number_of i (some n) = ok n

abbrev end_of : ℕ → Option ℤ → Result ℤ
end_of i none = err (not_end i)
end_of i (some n) = ok n

-- the two ends of an entry without its step
unfoldable pub parse_ends : ℕ → Text → ℕ → ℕ → Result (ℤ × ℤ)
parse_ends i part min max =
    if text_eq part (codes "*") then ok (pos min, pos max) else elim (cut part b'-') [
      | none ↦ number_of i (atoi part) >>= λ n. ok (n, n)
      | some (lo_text, hi_text) ↦
          number_of i (atoi lo_text) >>= λ n. end_of i (atoi hi_text) >>= λ m. ok (n, m)
    ]

-- lo < min || hi > max || lo > hi is an error
unfoldable pub check_range : ℕ → ℤ × ℤ → ℕ → ℕ → ℕ → Result Range
check_range i (pos lo, pos hi) min max step =
    if ltb lo min || ltb max hi || ltb hi lo
    then err (out_of_range i)
    else ok (record { lo = lo; hi = hi; step = step })
check_range i (pos lo, negsuc n) min max step = err (out_of_range i)
check_range i (negsuc n, hi) min max step = err (out_of_range i)

-- one entry of a comma list, in field `i`
unfoldable pub parse_part : ℕ → Text → ℕ → ℕ → Result Range
unfolding parse_step parse_ends check_range
parse_part i text min max =
    let part = trim_space text in
    if is_empty part
    then err (empty_entry i)
    else (parse_step i part >>= λ p. parse_ends i p.0 min max >>= λ e. check_range i e min max p.1)

unfoldable pub parse_parts : ℕ → List Text → ℕ → ℕ → Result (List ℤ)
parse_parts i [] min max = ok []
parse_parts i (p ∷ ps) min max =
    parse_part i p min max >>= λ r. parse_parts i ps min max >>= λ rest. ok (values r ++ rest)

-- parseField; a bare * is the empty set, which means any
unfoldable pub parse_field : ℕ → Text → ℕ → ℕ → Result (List ℤ)
unfolding parse_parts
parse_field i f min max =
    if text_eq (trim_space f) (codes "*") then ok [] else parse_parts i (split f b',') min max

-- the set of field `i`
abbrev pub field_set : ℕ → Text → Result (List ℤ)
field_set i f = parse_field i f (range_min i) (range_max i)

unfoldable pub parse_fields : List Text → Result Spec
parse_fields (f0 ∷ f1 ∷ f2 ∷ f3 ∷ f4 ∷ []) = field_set 0 f0 >>= λ minutes.
    field_set 1 f1 >>= λ hours. field_set 2 f2 >>= λ days. field_set 3 f3 >>= λ months.
    field_set 4 f4 >>= λ weekdays. ok (record {
      every = 0;
      minutes = minutes;
      hours = hours;
      days = days;
      months = months;
      weekdays = weekdays;
      cron = true;
      text = join (f0 ∷ f1 ∷ f2 ∷ f3 ∷ f4 ∷ []) b' ';
    })
parse_fields _ = err wrong_fields

-- parseCron
unfoldable pub parse_cron : Text → Result Spec
unfolding parse_fields
parse_cron text = parse_fields (fields text)

-- the duration form: no shorter than the floor
abbrev pub every_spec : Text → Option ℤ → Result Spec
every_spec text none = err not_duration
every_spec text (some (negsuc n)) = err too_fast
every_spec text (some (pos d)) =
    if ltb d min_every
    then err too_fast
    else ok (record {
      every = d;
      minutes = [];
      hours = [];
      days = [];
      months = [];
      weekdays = [];
      cron = false;
      text = text;
    })

module _ (fraction : Text → ℕ → ℕ) where
  -- Parse, of a text in lower case and trimmed
  unfoldable pub parse_trimmed : Text → Result Spec
  unfolding parse_cron
  parse_trimmed text =
      if is_empty text then err needs_spec else elim (cut_prefix text (codes "every ")) [
        | some rest ↦ every_spec text (parse_duration fraction (trim_space rest))
        | none ↦ parse_cron text
      ]

  unfoldable pub parse : Text → Result Spec
  unfolding parse_trimmed
  parse text = parse_trimmed (trim_space (to_lower text))
