-- ===== src/Work/Waiting.antt =====
-- internal/work/work.go: Waiting, what runs in a lane and what waits there, in the order of running.
use cogitorium.Prelude.{
  ℕ, zero, suc, ◌≤◌, ◌≡◌, refl, ap, ◌⊎◌, ◌∙◌, Bool, true, false, ◌||◌, [], ◌∷◌, leb, if◌then◌else◌,
  Text, filter, count, length, Bool-cases, inl, inr, arith,
}
use cogitorium.Work.Rows.{WorkUnit, Table, is_claimed, queued_in, claimed_in, earlier}

abbrev pub live_in : Text → WorkUnit → Bool
live_in lane r = claimed_in lane r || queued_in lane r

-- ORDER BY CASE state WHEN 'claimed' THEN 0 ELSE 1 END, run_after, id
unfoldable pub before : WorkUnit → WorkUnit → Bool
unfolding earlier
before a b =
    if is_claimed a.state
    then (if is_claimed b.state then earlier a b else true)
    else (if is_claimed b.state then false else earlier a b)

unfoldable pub insert_sorted : WorkUnit → Table → Table
insert_sorted r [] = r ∷ []
insert_sorted r (s ∷ t) = let rest = insert_sorted r t in if before s r then s ∷ rest else r ∷ s ∷ t

unfoldable pub sort : Table → Table
unfolding insert_sorted
sort [] = []
sort (r ∷ t) = insert_sorted r (sort t)

unfoldable pub take : ℕ → Table → Table
take zero t = []
take (suc n) [] = []
take (suc n) (r ∷ t) = r ∷ take n t

unfoldable pub waiting : Table → Text → ℕ → Table
unfolding sort take
waiting t lane limit = take (if leb limit 0 then 50 else limit) (sort (filter (live_in lane) t))

-- Each row comes no later than the next one in the list's order: running before waiting, then by
-- run_after, then by id.
abbrev pub Ordered : Table → Type 0
Ordered [] = Unit
Ordered (a ∷ []) = Unit
Ordered (a ∷ b ∷ t) = (before b a ≡ false) × Ordered (b ∷ t)

before_asym : (a b : WorkUnit) → before a b ≡ true → before b a ≡ false
unfolding before earlier
before_asym a b h = ground arith

insert_sorted-Ordered : (r : WorkUnit) (t : Table) → Ordered t → Ordered (insert_sorted r t)
unfolding insert_sorted
insert_sorted-Ordered r [] h = tt
insert_sorted-Ordered r (s ∷ []) h = elim (Bool-cases (before s r)) [
  | inl e ↦ rw e (before_asym s r e, tt)
  | inr e ↦ rw e (e, tt)
]
insert_sorted-Ordered r (s ∷ u ∷ t) h = elim (Bool-cases (before s r)) [
  | inr e ↦ rw e (e, h)
  | inl e ↦
      let rest = insert_sorted-Ordered r (u ∷ t) h.1 in
      elim (Bool-cases (before u r)) [
        | inl k ↦ rw (e, k) (h.0, rw k at rest)
        | inr k ↦ rw (e, k) (before_asym s r e, rw k at rest)
      ]
]

sort-Ordered : (t : Table) → Ordered (sort t)
unfolding sort
sort-Ordered [] = tt
sort-Ordered (r ∷ t) = insert_sorted-Ordered r (sort t) (sort-Ordered t)

take-Ordered : (n : ℕ) (t : Table) → Ordered t → Ordered (take n t)
unfolding take
take-Ordered zero t h = tt
take-Ordered (suc n) [] h = tt
take-Ordered (suc zero) (a ∷ t) h = tt
take-Ordered (suc (suc n)) (a ∷ []) h = tt
take-Ordered (suc (suc n)) (a ∷ b ∷ t) h = (h.0, take-Ordered (suc n) (b ∷ t) h.1)

count-insert_sorted :
    (p : WorkUnit → Bool) (r : WorkUnit) (t : Table) → count p (insert_sorted r t) ≡ count p (r ∷ t)
unfolding insert_sorted
count-insert_sorted p r [] = refl
count-insert_sorted p r (s ∷ t) = ground (arith, count-insert_sorted p r t)

count-sort : (p : WorkUnit → Bool) (t : Table) → count p (sort t) ≡ count p t
unfolding sort
count-sort p [] = refl
count-sort p (r ∷ t) = ground (arith, count-insert_sorted p r (sort t), count-sort p t)

length-take : (n : ℕ) (t : Table) → length (take n t) ≤ n
unfolding take
length-take zero t = omega arith
length-take (suc n) [] = omega arith
length-take (suc n) (r ∷ t) = ground (arith, length-take n t)

count-take : (n : ℕ) (p : WorkUnit → Bool) (t : Table) → count p (take n t) ≤ count p t
unfolding take
count-take zero p t = omega arith
count-take (suc n) p [] = omega arith
count-take (suc n) p (r ∷ t) = ground (arith, count-take n p t)

take_cases : (n : ℕ) (t : Table) → (length (take n t) ≡ n) ⊎ (take n t ≡ t)
unfolding take
take_cases zero t = inl refl
take_cases (suc n) [] = inr refl
take_cases (suc n) (r ∷ t) = elim (take_cases n t) [
  | inl e ↦ inl (ap suc e)
  | inr e ↦ inr (ap (λ s. r ∷ s) e)
]

-- The rows that Waiting may list: what runs or waits in the lane.
abbrev pub live : Table → Text → Table
live t lane = filter (live_in lane) t

abbrev pub bound : ℕ → ℕ
bound limit = if leb limit 0 then 50 else limit

-- Waiting lists rows of the lane that run or wait, in order, and no more than the limit, which is
-- 50 where none is given; and where it lists fewer, it lists them all. What it lists is compared by
-- the number of rows that pass a test, any test `p`.
pub waiting_lists :
    (t : Table) (lane : Text) (limit : ℕ) (p : WorkUnit → Bool)
    → Ordered (waiting t lane limit)
      × (length (waiting t lane limit) ≤ bound limit)
      × (count p (waiting t lane limit) ≤ count p (live t lane))
      × ((length (waiting t lane limit) ≡ bound limit)
          ⊎ (count p (waiting t lane limit) ≡ count p (live t lane)))
unfolding waiting
waiting_lists t lane limit p =
    let same = count-sort p (live t lane) in
    let fewer = count-take (bound limit) p (sort (live t lane)) in
    (
      take-Ordered (bound limit) (sort (live t lane)) (sort-Ordered (live t lane)),
      length-take (bound limit) (sort (live t lane)),
      omega (arith, same, fewer),
      elim (take_cases (bound limit) (sort (live t lane))) [
        | inl e ↦ inl e
        | inr e ↦ inr (ap (count p) e ∙ same)
      ],
    )
