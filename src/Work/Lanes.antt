-- ===== src/Work/Lanes.antt =====
-- What the operations that put units in, release and prune them do to the lanes.
use cogitorium.Prelude.{
  ℕ, ◌+◌, ◌-◌, ◌≤◌, ◌<◌, ◌≡◌, ◌≢◌, ◌⊎◌, refl, Bool, true, false, ◌&&◌, [], ◌∷◌, ◌++◌, arith, count,
  any, Bool-cases, inl, inr, none, Text, is_empty, ==_refl, text_eq_refl, count-append, count_pos,
  length, Memᴰ,
}
use cogitorium.Work.Rows.{
  WorkUnit, Table, State, claimed, done, dead, is_claimed, claimed_in, queued_in, known_kind,
  lane_taken, key_taken, insert, update, next_id,
}
use cogitorium.Work.Counting.{
  count-update_eq, count-update_zero, count-delete_eq, count_of_not_any, not_any_of_count,
  count-update_drop, length-delete,
}
use cogitorium.Work.Store.{
  Request, ok, err, lane_busy, claim_now, claimed_row, depth, release_claims, prune, prunable,
  finish_row, total_depth, claimed_anywhere, queued_anywhere, restart_text, settle, kill,
  claimed_with, live_with,
}
use cogitorium.Work.Invariant.{WellFormed}
use cogitorium.Work.Fresh.{get-append, insert_free}

module _ (t : Table) (u : Request) (now : ℕ) (has_lane : is_empty u.lane ≡ false)
    (known : known_kind u.kind ≡ true) where
  claim_now_free :
      any (claimed_in u.lane) t ≡ false
      → claim_now t u now
        ≡ (t ++ claimed_row u (next_id t) now ∷ [], ok (claimed_row u (next_id t) now))
  unfolding claim_now claimed_row lane_taken key_taken
  claim_now_free free =
      let r : WorkUnit = claimed_row u (next_id t) now in
      rw (has_lane, insert_free t r known free refl) (rw (get-append t r refl))

  claim_now_busy : any (claimed_in u.lane) t ≡ true → claim_now t u now ≡ (t, err lane_busy)
  unfolding claim_now claimed_row lane_taken key_taken insert
  claim_now_busy busy = ground arith

  depth-claimed_row :
      (depth t u.lane).1 ≡ 0 → (depth (t ++ claimed_row u (next_id t) now ∷ []) u.lane).1 ≡ 1
  unfolding depth claimed_row
  depth-claimed_row z = rw count-append (ground (arith, text_eq_refl u.lane))

  -- A chat turn takes its lane at once, and the table shows exactly that unit running there, or it
  -- is told that the lane is busy, and then the table is as it was. It is refused just where the
  -- lane shows something running. For a request with a lane and a kind that the schema knows.
  pub claim_now_takes_free_lane :
      ((depth t u.lane).1 ≡ 0)
        × (claim_now t u now
            ≡ (t ++ claimed_row u (next_id t) now ∷ [], ok (claimed_row u (next_id t) now)))
        × ((depth (claim_now t u now).0 u.lane).1 ≡ 1)
      ⊎ ((depth t u.lane).1 ≢ 0) × (claim_now t u now ≡ (t, err lane_busy))
  claim_now_takes_free_lane = elim (Bool-cases (any (claimed_in u.lane) t)) [
    | inl busy ↦ inr (
      (λ z. cc (busy, not_any_of_count (claimed_in u.lane) t (unfold depth in z))),
      claim_now_busy busy,
    )
    | inr free ↦
        let z : (depth t u.lane).1 ≡ 0 =
          unfold depth in count_of_not_any (claimed_in u.lane) t free in
        inl (z, claim_now_free free, rw (claim_now_free free) (depth-claimed_row z))
  ]

-- A restart leaves no unit running in any lane and what waits untouched, and it counts the claims
-- that it cleared.
pub release_frees_lanes :
    (t : Table) (now : ℕ) (lane : Text)
    → (depth (release_claims t now).0 lane ≡ ((depth t lane).0, 0))
      × (total_depth (release_claims t now).0 ≡ ((total_depth t).0, 0))
      × ((release_claims t now).1 ≡ (total_depth t).1)
unfolding release_claims depth total_depth finish_row
release_frees_lanes t now lane = (
  cc (
    count-update_eq claimed_anywhere (queued_in lane) (finish_row dead restart_text now) t
        (λ r e. ground arith),
    count-update_zero claimed_anywhere (claimed_in lane) (finish_row dead restart_text now) t
        (λ r e. ground arith) (λ r e. ground arith),
  ),
  cc (
    count-update_eq claimed_anywhere queued_anywhere (finish_row dead restart_text now) t
        (λ r e. ground arith),
    count-update_zero claimed_anywhere claimed_anywhere (finish_row dead restart_text now) t
        (λ r e. refl) (λ r e. e),
  ),
  refl,
)

finish_frees :
    (p : WorkUnit → Bool) (s : State) (text : Text) (now : ℕ) (t : Table) (r : WorkUnit)
    → is_claimed s ≡ false
    → count (claimed_in r.lane) t ≤ 1
    → Memᴰ r t
    → r.state ≡ claimed
    → p r ≡ true
    → count (claimed_in r.lane) (update p (finish_row s text now) t) ≡ 0
unfolding finish_row
finish_frees p s text now t r idle one m runs hit =
    let drop : count (claimed_in r.lane) (update p (finish_row s text now) t)
          + count (λ q. p q && claimed_in r.lane q) t
        ≡ count (claimed_in r.lane) t =
      count-update_drop p (claimed_in r.lane) (finish_row s text now) t (λ q e. ground arith) in
    let here : 0 < count (λ q. p q && claimed_in r.lane q) t =
      count_pos _ t m (ground (arith, text_eq_refl r.lane)) in
    omega arith

-- Settling a running unit, or killing it, succeeds and frees its lane. In a table with one claimed
-- unit to a lane.
pub settle_frees_lane :
    (t : Table) (r : WorkUnit) (text : Text) (now : ℕ)
    → WellFormed t
    → Memᴰ r t
    → r.state ≡ claimed
    → ((settle t r.id text now).1 ≡ none)
      × ((depth (settle t r.id text now).0 r.lane).1 ≡ 0)
      × ((kill t r.id text now).1 ≡ none)
      × ((depth (kill t r.id text now).0 r.lane).1 ≡ 0)
unfolding settle kill depth
settle_frees_lane t r text now wf m runs =
    let hit : claimed_with r.id r ≡ true = ground (arith, ==_refl r.id) in
    let live : live_with r.id r ≡ true = ground (arith, ==_refl r.id) in
    let a : 0 < count (claimed_with r.id) t = count_pos _ t m hit in
    let b : 0 < count (live_with r.id) t = count_pos _ t m live in
    (
      ground arith,
      finish_frees (claimed_with r.id) done text now t r refl (wf.lanes r.lane) m runs hit,
      ground arith,
      finish_frees (live_with r.id) dead text now t r refl (wf.lanes r.lane) m runs live,
    )

-- A prune leaves every lane's depth as it was, and its count is the rows that it removed.
pub prune_keeps_live :
    (t : Table) (older_than now : ℕ) (lane : Text)
    → (depth (prune t older_than now).0 lane ≡ depth t lane)
      × (length (prune t older_than now).0 + (prune t older_than now).1 ≡ length t)
unfolding prune depth
prune_keeps_live t older_than now lane = (
  cc (
    count-delete_eq (prunable (now - older_than)) (queued_in lane) t (λ r e. ground arith),
    count-delete_eq (prunable (now - older_than)) (claimed_in lane) t (λ r e. ground arith),
  ),
  length-delete (prunable (now - older_than)) t,
)
