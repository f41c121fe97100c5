-- ===== src/Work/Worked.antt =====
-- What a worker that nobody disturbs makes of every row.
use cogitorium.Prelude.{
  ℕ, suc, ◌≡◌, ◌≤◌, refl, sym, ap, ◌∙◌, Bool, true, [], ◌∷◌, arith, count, count_pos, inl, inr,
  Memᴰ, Bool-cases,
}
use cogitorium.Work.Rows.{WorkUnit, Table, queued, done, claimed, has_id, update}
use cogitorium.Work.Store.{claim_row, finish_row, claimed_with}
use cogitorium.Work.Pool.{Outcome, settle_text}

-- A row is as it was; or it waited, and is done after one attempt more, with what its runner's end
-- says.
pub data Ran (runner : WorkUnit → Outcome) (now : ℕ) (r r' : WorkUnit) : Type 0 where
  left : r' ≡ r → Ran runner now r r'
  ran :
      r.state ≡ queued
      → r'.state ≡ done
      → r'.id ≡ r.id
      → r'.attempts ≡ suc r.attempts
      → r'.last_error
        ≡ settle_text
            (runner (record r { state = claimed; attempts = suc r.attempts; updated_at = now }))
      → Ran runner now r r'

-- Row by row.
pub data Worked (runner : WorkUnit → Outcome) (now : ℕ) : Table → Table → Type 0 where
  none_left : Worked runner now [] []
  row :
      {r r' : WorkUnit} {t t' : Table}
      → Ran runner now r r'
      → Worked runner now t t'
      → Worked runner now (r ∷ t) (r' ∷ t')

-- Where a test holds once, the rows that pass it are one.
pub one_row :
    (p : WorkUnit → Bool) (t : Table) (r w : WorkUnit)
    → count p t ≤ 1
    → Memᴰ r t
    → Memᴰ w t
    → p r ≡ true
    → p w ≡ true
    → r ≡ w
one_row p [] r w one m k hr hw = elim m [ ]
one_row p (s ∷ t) r w one (Memᴰ.head e) (Memᴰ.head f) hr hw = e ∙ sym f
one_row p (s ∷ t) r w one (Memᴰ.head e) (Memᴰ.tail k) hr hw =
    let here : p s ≡ true = ap p (sym e) ∙ hr in
    absurd (ground (arith, count_pos p t k hw, here, one))
one_row p (s ∷ t) r w one (Memᴰ.tail m) (Memᴰ.head f) hr hw =
    let here : p s ≡ true = ap p (sym f) ∙ hw in
    absurd (ground (arith, count_pos p t m hr, here, one))
one_row p (s ∷ t) r w one (Memᴰ.tail m) (Memᴰ.tail k) hr hw =
    one_row p t r w (ground (arith, one)) m k hr hw

module _ (runner : WorkUnit → Outcome) (now : ℕ) where
  pub Worked_refl : (t : Table) → Worked runner now t t
  Worked_refl [] = none_left
  Worked_refl (r ∷ t) = row (left refl) (Worked_refl t)

  Ran-trans : (a b c : WorkUnit) → Ran runner now a b → Ran runner now b c → Ran runner now a c
  Ran-trans a b c (left e) k = rw (← e) k
  Ran-trans a b c (ran q d i n x) (left e) = rw e (ran q d i n x)
  Ran-trans a b c (ran q d i n x) (ran q' d' i' n' x') = absurd (cc (d, q'))

  pub Worked_trans :
      (a b c : Table) → Worked runner now a b → Worked runner now b c → Worked runner now a c
  Worked_trans a b c none_left k = k
  Worked_trans a b c (row {r} {r'} x w) (row {r' = r''} y v) =
      row (Ran-trans r r' r'' x y) (Worked_trans _ _ _ w v)

  -- One unit is claimed, run and settled: every row that has its id waited.
  pub settled-Worked :
      (t : Table) (id : ℕ) (u : WorkUnit)
      → ((r : WorkUnit)
          → Memᴰ r t
          → has_id id r ≡ true
          → (r.state ≡ queued) × (claim_row now r ≡ u))
      → Worked runner now t (
          update
            (claimed_with id)
            (finish_row done (settle_text (runner u)) now)
            (update (has_id id) (claim_row now) t))
  unfolding update claim_row finish_row
  settled-Worked [] id u h = none_left
  settled-Worked (r ∷ t) id u h =
      let rest = settled-Worked t id u (λ s m. h s (Memᴰ.tail m)) in
      elim (Bool-cases (has_id id r)) [
        | inr e ↦ rw (e, e) (row (left refl) rest)
        | inl e ↦
            let (waits, same) = h r (Memᴰ.head refl) e in
            rw (e, e)
              (row (ran waits refl refl refl (ap (λ x. settle_text (runner x)) (sym same))) rest)
      ]
