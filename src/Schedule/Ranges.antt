-- ===== src/Schedule/Ranges.antt =====
-- The loop over a range of values: it ends, and it yields every step-th value of the range.
use cogitorium.Prelude.{
  ℕ, zero, suc, ◌+◌, ◌*◌, ◌≤◌, ◌<◌, ◌≡◌, refl, ap, ◌∙◌, true, false, ◌||◌, Option, none, some, List,
  [], ◌∷◌, arith, leb, ltb, ℤ, pos, negsuc, max_int, Bool-cases, inl, inr, All, All-mono, Text,
  Option-cases, trim_space, is_empty, atoi, cut, ◌==◌,
}
use cogitorium.Schedule.Spec.{
  Result, ok, err, parse_step, step_of, parse_ends, check_range, parse_part, ◌>>=◌, add_step,
  at_most, values_from, Range, rounds, values,
}
use cogitorium.Schedule.Next.{holds}

values_stop :
    (fuel : ℕ) (v : ℤ) (hi step : ℕ)
    → at_most v hi ≡ false
    → values_from (suc fuel) v hi step ≡ some []
unfolding values_from
values_stop fuel v hi step h = rw (h, values_from)

values_go :
    (fuel : ℕ) (v : ℤ) (hi step : ℕ) (rest : List ℤ)
    → at_most v hi ≡ true
    → values_from fuel (add_step v step) hi step ≡ some rest
    → values_from (suc fuel) v hi step ≡ some (v ∷ rest)
unfolding values_from
values_go fuel v hi step rest h e = rw (h, values_from) (rw e)

add_step-small : (v step : ℕ) → v + step ≤ max_int → add_step (pos v) step ≡ pos (v + step)
unfolding add_step
add_step-small v step h = ground arith

-- The values from `v` to `hi` in steps: all of them lie there, and nothing else is one.
abbrev pub Steps : ℕ → ℕ → ℕ → List ℤ → Type 0
Steps v hi step vs =
    All (λ x. (n : ℕ) × (x ≡ pos n) × (v ≤ n) × (n ≤ hi)) vs
    × ((d : ℕ) → holds vs d ≡ true → (k : ℕ) × (d ≡ v + k * step) × (d ≤ hi))
    × ((k : ℕ) → v + k * step ≤ hi → holds vs (v + k * step) ≡ true)

Steps-stop : (v hi step : ℕ) → hi < v → Steps v hi step []
Steps-stop v hi step h = (tt, (λ d q. cc), (λ k q. absurd (omega arith)))

Steps_at :
    (v hi step : ℕ) (vs : List ℤ)
    → ((k : ℕ) → v + step + k * step ≤ hi → holds vs (v + step + k * step) ≡ true)
    → (k : ℕ) → v + k * step ≤ hi
    → holds (pos v ∷ vs) (v + k * step) ≡ true
Steps_at v hi step vs h zero q = ground arith
Steps_at v hi step vs h (suc k) q =
    let same : v + step + k * step ≡ v + suc k * step = omega arith in
    let hit : holds vs (v + suc k * step) ≡ true = rw (← same) (h k (omega arith)) in ground arith

Steps-go :
    (v hi step : ℕ) (vs : List ℤ)
    → v ≤ hi
    → Steps (v + step) hi step vs
    → Steps v hi step (pos v ∷ vs)
Steps-go v hi step vs h (ins, sound, complete) = (
  (
    (v, refl, omega arith, h),
    All-mono (λ x. (n : ℕ) × (x ≡ pos n) × (v + step ≤ n) × (n ≤ hi))
        (λ x. (n : ℕ) × (x ≡ pos n) × (v ≤ n) × (n ≤ hi)) vs
        (λ x (n, q, a, b). (n, q, omega arith, b)) ins,
  ),
  (λ d q. elim (Bool-cases (v == d)) [
    | inl e ↦ (0, ground arith, ground arith)
    | inr e ↦ let (k, a, b) = sound d (ground arith) in (suc k, omega arith, b)
  ]),
  (λ k q. Steps_at v hi step vs complete k q),
)

values_from_lem :
    (fuel v hi step : ℕ)
    → 1 ≤ step
    → hi + step ≤ max_int
    → 1 ≤ fuel
    → hi + 2 ≤ fuel + v
    → (vs : List ℤ) × (values_from fuel (pos v) hi step ≡ some vs) × Steps v hi step vs
values_from_lem zero v hi step low big some_left enough = absurd (omega arith)
values_from_lem (suc fuel) v hi step low big some_left enough = elim (Bool-cases (leb v hi)) [
  | inr e ↦ ([], values_stop fuel (pos v) hi step e, Steps-stop v hi step (ground arith))
  | inl e ↦
      let (vs, q, h) =
        values_from_lem fuel (v + step) hi step low big (ground arith) (omega arith) in
      (
        pos v ∷ vs,
        values_go fuel (pos v) hi step vs e
            (ap (λ w. values_from fuel w hi step) (add_step-small v step (ground arith)) ∙ q),
        Steps-go v hi step vs (ground arith) h,
      )
]

-- For every range in order whose step is at least one and whose end and step do not overflow together, the loop of
-- parseField ends within the rounds given to it, each value it adds lies between the ends, a number
-- is in the set exactly if it is the start plus a multiple of the step and at most the end.
pub values-Steps :
    (r : Range)
    → r.lo ≤ r.hi
    → 1 ≤ r.step
    → r.hi + r.step ≤ max_int
    → Steps r.lo r.hi r.step (values r)
values-Steps r order low big =
    let (vs, e, h) =
      values_from_lem (rounds r.hi) r.lo r.hi r.step low big (omega arith) (omega arith) in
    rw (e, values) h

Result-cases :
    {A B : Type 0} (x : Result A) (f : A → Result B) (b : B)
    → (x >>= f) ≡ ok b
    → (a : A) × (x ≡ ok a) × (f a ≡ ok b)
Result-cases (ok a) f b h = (a, refl, h)
Result-cases (err e) f b h = cc

step_of_pos : (i : ℕ) (x : Option ℤ) (n : ℕ) → step_of i x ≡ ok n → 1 ≤ n
step_of_pos i none n h = cc
step_of_pos i (some (negsuc m)) n h = cc
step_of_pos i (some (pos m)) n h = ground arith

step_of_pos_then :
    (i : ℕ) (base : Text) (x : Option ℤ) (p : Text × ℕ)
    → (step_of i x >>= λ n. ok (base, n)) ≡ ok p
    → 1 ≤ p.1
step_of_pos_then i base x p h =
    let (n, q, k) = Result-cases (step_of i x) (λ n. ok (base, n)) p h in
    let low : 1 ≤ n = step_of_pos i x n q in let same : n ≡ p.1 = cc k in omega arith

parse_step_pos : (i : ℕ) (part : Text) (p : Text × ℕ) → parse_step i part ≡ ok p → 1 ≤ p.1
unfolding parse_step
parse_step_pos i part p h = elim (Option-cases (cut part b'/')) [
  | inl e ↦ let same : 1 ≡ p.1 = cc (rw (e, parse_step) at h) in omega arith
  | inr ((base, text), e) ↦ step_of_pos_then i base (atoi text) p (rw (e, parse_step) at h)
]

check_range_lem :
    (i : ℕ) (e : ℤ × ℤ) (min max step : ℕ) (r : Range)
    → check_range i e min max step ≡ ok r
    → (min ≤ r.lo) × (r.lo ≤ r.hi) × (r.hi ≤ max) × (r.step ≡ step)
unfolding check_range
check_range_lem i (pos lo, pos hi) min max step r h =
    elim (Bool-cases (ltb lo min || ltb max hi || ltb hi lo)) [
      | inl e ↦ cc (rw e at h)
      | inr e ↦
          let low : lo ≡ r.lo = cc (rw e at h) in
          let high : hi ≡ r.hi = cc (rw e at h) in
          let pace : step ≡ r.step = cc (rw e at h) in
          (ground arith, ground arith, ground arith, cc)
    ]
check_range_lem i (pos lo, negsuc n) min max step r h = cc
check_range_lem i (negsuc n, hi) min max step r h = cc

ends_in_range :
    (i : ℕ) (p : Text × ℕ) (min max : ℕ) (r : Range)
    → (parse_ends i p.0 min max >>= λ e. check_range i e min max p.1) ≡ ok r
    → 1 ≤ p.1
    → (min ≤ r.lo) × (r.lo ≤ r.hi) × (r.hi ≤ max) × (1 ≤ r.step)
ends_in_range i p min max r h low =
    let (ends, q, k) =
      Result-cases (parse_ends i p.0 min max) (λ e. check_range i e min max p.1) r h in
    let (a, b, c, d) = check_range_lem i ends min max p.1 r k in (a, b, c, omega arith)

-- Every entry that a cron field accepts has its ends in order and within the field's bounds, and a
-- step of at least one.
pub part_in_range :
    (i : ℕ) (text : Text) (min max : ℕ) (r : Range)
    → parse_part i text min max ≡ ok r
    → (min ≤ r.lo) × (r.lo ≤ r.hi) × (r.hi ≤ max) × (1 ≤ r.step)
unfolding parse_part
part_in_range i text min max r h = elim (Bool-cases (is_empty (trim_space text))) [
  | inl e ↦ cc (rw e at h)
  | inr e ↦
      let (p, q, k) =
        Result-cases (parse_step i (trim_space text))
          (λ p. parse_ends i p.0 min max >>= λ e. check_range i e min max p.1) r (rw e at h) in
      ends_in_range i p min max r k (parse_step_pos i (trim_space text) p q)
]
