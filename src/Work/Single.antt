-- ===== src/Work/Single.antt =====
-- A unit is handed to one worker only: ClaimNext over any sequence of operations.
use cogitorium.Prelude.{
  ℕ, ◌<◌, ◌≡◌, ◌≢◌, refl, sym, ap, ◌∙◌, Bool, true, false, List, [], ◌∷◌, ◌++◌, arith, count, all,
  inl, inr, Text, All, Memᴰ, Bool-cases, count_pos, ==_refl, ==_iff, ◌==◌, &&-true, count-append,
}
use cogitorium.Work.Rows.{
  WorkUnit, Table, State, done, dead, is_queued, stored, insert, update, has_id, next_id,
}
use cogitorium.Work.Counting.{All-update, All-append_one, count-update_eq, count-next_id}
use cogitorium.Work.Store.{
  ok, claim, claim_row, settle, kill, release_claims, finish_row, queued_row, claimed_row,
  claimed_with, live_with, claimed_anywhere, restart_text,
}
use cogitorium.Work.Claim.{claim_takes_oldest}
use cogitorium.Work.Steps.{
  Op, do_enqueue, do_claim_now, do_claim, do_release, do_settle, do_kill, do_prune, step, run,
  enqueue_keeps, claim_now_keeps,
}

-- The unit is in the table, and does not wait.
pub record Taken (id : ℕ) (t : Table) : Type 0 where
  pub there : 0 < count (has_id id) t
  pub no_wait : All (λ r. r.id ≡ id → is_queued r.state ≡ false) t

abbrev pub no_prune : Op → Bool
no_prune (do_prune n) = false
no_prune (do_enqueue u) = true
no_prune (do_claim_now u) = true
no_prune do_claim = true
no_prune do_release = true
no_prune (do_settle n text) = true
no_prune (do_kill n text) = true

module _ (id : ℕ) where
  abbrev NoWait : WorkUnit → Type 0
  NoWait r = r.id ≡ id → is_queued r.state ≡ false

  -- A rewrite that changes no id and leaves no rewritten row waiting.
  Taken-update :
      (p : WorkUnit → Bool) (f : WorkUnit → WorkUnit) (t : Table)
      → ((r : WorkUnit) → (f r).id ≡ r.id)
      → ((r : WorkUnit) → is_queued (f r).state ≡ false)
      → Taken id t
      → Taken id (update p f t)
  Taken-update p f t same moved k = record {
    there =
        rw (count-update_eq p (has_id id) f t (λ r e. ap (λ (n : ℕ). n == id) (same r))) k.there;
    no_wait = All-update NoWait p f t (λ r m e h q. moved r) k.no_wait;
  }

  Taken-finish :
      (p : WorkUnit → Bool) (s : State) (text : Text) (now : ℕ) (t : Table)
      → is_queued s ≡ false
      → Taken id t
      → Taken id (update p (finish_row s text now) t)
  unfolding finish_row
  Taken-finish p s text now t h k = Taken-update p (finish_row s text now) t (λ r. refl) (λ r. h) k

  next_id-other : (t : Table) → 0 < count (has_id id) t → next_id t ≢ id
  next_id-other t h e =
      let none_there : count (has_id id) t ≡ 0 =
        ap (λ n. count (has_id n) t) (sym e) ∙ count-next_id t in
      absurd (omega (arith, none_there, h))

  Taken-insert :
      (t : Table) (r : WorkUnit) {t' : Table}
      → insert t r ≡ stored t'
      → r.id ≡ next_id t
      → Taken id t
      → Taken id t'
  unfolding insert
  Taken-insert t r {t'} e fresh k =
      let q : t ++ r ∷ [] ≡ t' = ground arith in
      rw (← q) record {
        there = omega (arith, count-append (has_id id) t (r ∷ []), k.there);
        no_wait =
            All-append_one NoWait t r k.no_wait
              (λ same. absurd (next_id-other t k.there (sym fresh ∙ same)));
      }

  claim-Taken : (t : Table) (now : ℕ) → Taken id t → Taken id (claim t now).0
  unfolding claim_row
  claim-Taken t now k = elim (claim_takes_oldest t now) [
    | inl (w, m, ready, least, e) ↦
        rw e (Taken-update (has_id w.id) (claim_row now) t (λ r. refl) (λ r. refl) k)
    | inr (_, e) ↦ rw e k
  ]

  step-Taken :
      (t : Table) (now : ℕ) (op : Op) → no_prune op ≡ true → Taken id t → Taken id (step t now op)
  unfolding step settle kill release_claims queued_row claimed_row
  step-Taken t now (do_enqueue u) h k =
      enqueue_keeps (Taken id) t u now (λ t' q. Taken-insert t _ q refl k) k
  step-Taken t now (do_claim_now u) h k =
      claim_now_keeps (Taken id) t u now (λ t' q. Taken-insert t _ q refl k) k
  step-Taken t now do_claim h k = claim-Taken t now k
  step-Taken t now do_release h k = Taken-finish claimed_anywhere dead restart_text now t refl k
  step-Taken t now (do_settle n text) h k = Taken-finish (claimed_with n) done text now t refl k
  step-Taken t now (do_kill n reason) h k = Taken-finish (live_with n) dead reason now t refl k
  step-Taken t now (do_prune n) h k = absurd (cc h)

  run-Taken :
      (t : Table) (ops : List (ℕ × Op))
      → all (λ op. no_prune op.1) ops ≡ true
      → Taken id t
      → Taken id (run t ops)
  unfolding run
  run-Taken t [] h k = k
  run-Taken t ((now, op) ∷ ops) h k =
      let (a, b) = &&-true (no_prune op) (all (λ op. no_prune op.1) ops) h in
      run-Taken (step t now op) ops b (step-Taken t now op a k)

  claimed-NoWait : (now : ℕ) (t : Table) → All NoWait (update (has_id id) (claim_row now) t)
  unfolding update claim_row
  claimed-NoWait now [] = tt
  claimed-NoWait now (r ∷ t) =
      let rest = claimed-NoWait now t in
      elim (Bool-cases (has_id id r)) [
        | inl e ↦ rw e ((λ q. refl), rest)
        | inr e ↦ rw e ((λ q. absurd (cc ((==_iff r.id id).1 q, e))), rest)
      ]

  NoWait-at :
      (t : Table) (w : WorkUnit) → All NoWait t → Memᴰ w t → w.id ≡ id → is_queued w.state ≡ false
  NoWait-at [] w a m q = elim m [ ]
  NoWait-at (r ∷ t) w a (Memᴰ.head e) q =
      ap (λ (x : WorkUnit). is_queued x.state) e ∙ a.0 (ap (λ (x : WorkUnit). x.id) (sym e) ∙ q)
  NoWait-at (r ∷ t) w a (Memᴰ.tail m) q = NoWait-at t w a.1 m q

  -- A claim does not answer with a unit that is taken.
  claim-other :
      (t : Table) (now : ℕ) (v : WorkUnit) → Taken id t → (claim t now).1 ≡ ok v → v.id ≢ id
  unfolding claim_row
  claim-other t now v k h q = elim (claim_takes_oldest t now) [
    | inl (w, m, ready, least, e) ↦
        let same : claim_row now w ≡ v = let g = rw e at h in cc g in
        let own : w.id ≡ id = ap (λ (x : WorkUnit). x.id) same ∙ q in
        absurd (cc (NoWait-at t w k.no_wait m own, ready.waits))
    | inr (_, e) ↦ absurd (cc (rw e at h))
  ]

own_Taken :
    (t : Table) (now : ℕ) (w : WorkUnit)
    → Memᴰ w t
    → Taken w.id (update (has_id w.id) (claim_row now) t)
unfolding claim_row
own_Taken t now w m = record {
  there =
      rw (count-update_eq (has_id w.id) (has_id w.id) (claim_row now) t (λ r e. refl))
        (count_pos (has_id w.id) t m (==_refl w.id));
  no_wait = claimed-NoWait w.id now t;
}

claim-Taken_own :
    (t : Table) (now : ℕ) (u : WorkUnit) → (claim t now).1 ≡ ok u → Taken u.id (claim t now).0
claim-Taken_own t now u h = elim (claim_takes_oldest t now) [
  | inl (w, m, ready, least, e) ↦
      let same : claim_row now w ≡ u = let g = rw e at h in cc g in
      let own : w.id ≡ u.id = unfold claim_row in ap (λ (x : WorkUnit). x.id) same in
      rw (e, ← own) (own_Taken t now w m)
  | inr (_, e) ↦ absurd (cc (rw e at h))
]

-- No unit is claimed twice: once a claim has answered with a unit, no claim after it, whatever
-- operations but a prune come between them, answers with a unit of that id.
pub claimed_once :
    (t : Table) (now : ℕ) (u : WorkUnit) (ops : List (ℕ × Op)) (later : ℕ) (v : WorkUnit)
    → (claim t now).1 ≡ ok u
    → all (λ op. no_prune op.1) ops ≡ true
    → (claim (run (claim t now).0 ops) later).1 ≡ ok v
    → v.id ≢ u.id
claimed_once t now u ops later v h k =
    claim-other u.id (run (claim t now).0 ops) later v
      (run-Taken u.id (claim t now).0 ops k (claim-Taken_own t now u h))
