-- ===== src/Work/Claim.antt =====
-- Which unit `Claim` takes: the oldest that is queued, due, and in a lane where nothing runs.
use cogitorium.Prelude.{
  ℕ, ◌≤◌, ◌<◌, ◌≡◌, refl, ◌∙◌, true, false, [], ◌∷◌, arith, filter, Bool-cases, ◌⊎◌, inl, inr, none,
  some, Memᴰ, mem_of_mem-filter, mem-filter_of_mem, if◌then◌else◌,
}
use cogitorium.Work.Rows.{
  queued, WorkUnit, Table, has_id, claimed_in, update, earlier, first_by_order, runnable,
  oldest_runnable,
}
use cogitorium.Work.Counting.{count_of_not_any, not_any_of_count}
use cogitorium.Work.Store.{ok, err, not_found, depth, claim, claim_row, claim_id, claim_attempt}

-- Queued, due, and in a lane whose depth shows nothing running.
pub record IsReady (t : Table) (now : ℕ) (r : WorkUnit) : Type 0 where
  pub waits : r.state ≡ queued
  pub due : r.run_after ≤ now
  pub lane_free : (depth t r.lane).1 ≡ 0

-- Ahead in the order of run_after, then of the id.
abbrev pub Precedes : WorkUnit → WorkUnit → Type 0
Precedes a b = (a.run_after < b.run_after) ⊎ ((a.run_after ≡ b.run_after) × (a.id < b.id))

IsReady-of_runnable :
    (t : Table) (now : ℕ) (r : WorkUnit) → runnable t now r ≡ true → IsReady t now r
unfolding runnable depth
IsReady-of_runnable t now r h = record {
  waits = ground arith;
  due = ground arith;
  lane_free = count_of_not_any (claimed_in r.lane) t (ground arith);
}

runnable_of_IsReady :
    (t : Table) (now : ℕ) (r : WorkUnit) → IsReady t now r → runnable t now r ≡ true
unfolding runnable depth
runnable_of_IsReady t now r h = ground (arith, not_any_of_count (claimed_in r.lane) t h.lane_free)

Precedes-earlier : (a b : WorkUnit) → Precedes a b → earlier a b ≡ true
unfolding earlier
Precedes-earlier a b h = ground arith

earlier_trans : (a b c : WorkUnit) → earlier a b ≡ false → earlier b c ≡ false → earlier a c ≡ false
unfolding earlier
earlier_trans a b c h k = ground arith

earlier_irrefl : (a : WorkUnit) → earlier a a ≡ false
unfolding earlier
earlier_irrefl a = ground arith

earlier_asym : (a b : WorkUnit) → earlier a b ≡ true → earlier b a ≡ false
unfolding earlier
earlier_asym a b h = ground arith

abbrev Least : Table → WorkUnit → Type 0
Least t w = Memᴰ w t × ((v : WorkUnit) → Memᴰ v t → earlier v w ≡ false)

Least-nil : (r v : WorkUnit) → Memᴰ v (r ∷ []) → earlier v r ≡ false
Least-nil r v (Memᴰ.head e) = rw e (earlier_irrefl r)
Least-nil r v (Memᴰ.tail m) = elim m [ ]

Least-keep :
    (r s : WorkUnit) (t : Table)
    → earlier s r ≡ true
    → ((v : WorkUnit) → Memᴰ v t → earlier v s ≡ false)
    → (v : WorkUnit) → Memᴰ v (r ∷ t)
    → earlier v s ≡ false
Least-keep r s t e h v (Memᴰ.head q) = rw q (earlier_asym s r e)
Least-keep r s t e h v (Memᴰ.tail m) = h v m

Least-new :
    (r s : WorkUnit) (t : Table)
    → earlier s r ≡ false
    → ((v : WorkUnit) → Memᴰ v t → earlier v s ≡ false)
    → (v : WorkUnit) → Memᴰ v (r ∷ t)
    → earlier v r ≡ false
Least-new r s t e h v (Memᴰ.head q) = rw q (earlier_irrefl r)
Least-new r s t e h v (Memᴰ.tail m) = earlier_trans v s r (h v m) e

first_step :
    (r w : WorkUnit) (t : Table)
    → first_by_order t ≡ some w
    → first_by_order (r ∷ t) ≡ some (if earlier w r then w else r)
unfolding first_by_order
first_step r w t e = rw e

-- The first row by the order, of a table that has a row.
first_Least :
    (r : WorkUnit) (t : Table)
    → (w : WorkUnit) × (first_by_order (r ∷ t) ≡ some w) × Least (r ∷ t) w
first_Least r [] = (r, unfold first_by_order in refl, (Memᴰ.head refl, Least-nil r))
first_Least r (s ∷ t) =
    let (w, e, (m, h)) = first_Least s t in
    elim (Bool-cases (earlier w r)) [
      | inl lt ↦ (w, first_step r w (s ∷ t) e ∙ rw lt, (Memᴰ.tail m, Least-keep r w (s ∷ t) lt h))
      | inr ge ↦ (r, first_step r w (s ∷ t) e ∙ rw ge, (Memᴰ.head refl, Least-new r w (s ∷ t) ge h))
    ]

first_cases :
    (t : Table)
    → ((w : WorkUnit) × (first_by_order t ≡ some w) × Least t w)
      ⊎ ((first_by_order t ≡ none) × ((v : WorkUnit) → ¬ (Memᴰ v t)))
unfolding first_by_order
first_cases [] = inr (refl, λ v m. elim m [ ])
first_cases (r ∷ t) = inl (first_Least r t)

claim_of_first :
    (t : Table) (now : ℕ) (w : WorkUnit)
    → oldest_runnable t now ≡ some w
    → IsReady t now w
    → claim t now ≡ (update (has_id w.id) (claim_row now) t, ok (claim_row now w))
unfolding claim claim_attempt claim_id depth
claim_of_first t now w e ready =
    ground (arith, e, not_any_of_count (claimed_in w.lane) t ready.lane_free)

claim_of_none :
    (t : Table) (now : ℕ) → oldest_runnable t now ≡ none → claim t now ≡ (t, err not_found)
unfolding claim claim_attempt
claim_of_none t now e = ground arith

-- A claim takes a ready unit that no ready unit precedes, marks it claimed in the table and returns
-- it; where no unit is ready it answers not found and changes nothing. The lane's index never
-- refuses it.
pub claim_takes_oldest :
    (t : Table) (now : ℕ)
    → ((w : WorkUnit) × Memᴰ w t
        × IsReady t now w
        × ((v : WorkUnit) → Memᴰ v t → IsReady t now v → ¬ (Precedes v w))
        × (claim t now ≡ (update (has_id w.id) (claim_row now) t, ok (claim_row now w))))
      ⊎ (((v : WorkUnit) → Memᴰ v t → ¬ (IsReady t now v)) × (claim t now ≡ (t, err not_found)))
unfolding oldest_runnable
claim_takes_oldest t now = elim (first_cases (filter (runnable t now) t)) [
  | inl (w, e, (m, least)) ↦
      let (in_t, passes) = mem_of_mem-filter (runnable t now) t m in
      let ready : IsReady t now w = IsReady-of_runnable t now w passes in
      inl (
        w,
        in_t,
        ready,
        (λ v k r p. cc (
          Precedes-earlier v w p,
          least v (mem-filter_of_mem (runnable t now) t k (runnable_of_IsReady t now v r)),
        )),
        claim_of_first t now w e ready,
      )
  | inr (e, empty) ↦ inr (
    (λ v k r. empty v (mem-filter_of_mem (runnable t now) t k (runnable_of_IsReady t now v r))),
    claim_of_none t now e,
  )
]
