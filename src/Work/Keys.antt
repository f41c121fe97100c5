-- ===== src/Work/Keys.antt =====
-- Enqueueing under an idempotency key.
use cogitorium.Prelude.{
  ℕ, ◌≡◌, ◌⊎◌, refl, ◌∙◌, Bool, true, false, [], ◌∷◌, ◌++◌, arith, count, any, find?, Bool-cases,
  inl, inr, some, is_empty, find?-sound, Memᴰ,
}
use cogitorium.Work.Rows.{
  WorkUnit, Table, same_key, known_kind, lane_taken, key_taken, insert, next_id,
}
use cogitorium.Work.Counting.{count_of_not_any}
use cogitorium.Work.Store.{Request, ok, duplicate, enqueue, queued_row, by_idem}
use cogitorium.Work.Fresh.{get-append, insert_free}

any-find? :
    (p : WorkUnit → Bool) (t : Table) → any p t ≡ true → (r : WorkUnit) × (find? p t ≡ some r)
any-find? p [] h = cc
any-find? p (s ∷ t) h = elim (Bool-cases (p s)) [
  | inl e ↦ (s, rw e)
  | inr e ↦ let (r, q) = any-find? p t (ground arith) in (r, rw e q)
]

key_taken-queued_row :
    (t : Table) (u : Request) (id now : ℕ)
    → is_empty u.idem_key ≡ false
    → key_taken t (queued_row u id now) ≡ any (same_key u.kind u.workspace_id u.idem_key) t
unfolding key_taken queued_row
key_taken-queued_row t u id now h = ground arith

module _ (t : Table) (u : Request) (now : ℕ) (has_lane : is_empty u.lane ≡ false)
    (known : known_kind u.kind ≡ true) where
  enqueue_free :
      key_taken t (queued_row u (next_id t) now) ≡ false
      → enqueue t u now
        ≡ (t ++ queued_row u (next_id t) now ∷ [], ok (queued_row u (next_id t) now))
  unfolding enqueue queued_row lane_taken
  enqueue_free free =
      let r : WorkUnit = queued_row u (next_id t) now in
      rw (has_lane, insert_free t r known refl free) (rw (get-append t r refl))

  enqueue_taken :
      is_empty u.idem_key ≡ false
      → (r : WorkUnit) → by_idem t u.kind u.workspace_id u.idem_key ≡ ok r
      → key_taken t (queued_row u (next_id t) now) ≡ true
      → enqueue t u now ≡ (t, duplicate r)
  unfolding enqueue insert queued_row lane_taken
  enqueue_taken keyed r e taken = ground arith

-- What stands under the key, or nothing.
module _ (t : Table) (u : Request) (now : ℕ) (has_lane : is_empty u.lane ≡ false)
    (known : known_kind u.kind ≡ true) (keyed : is_empty u.idem_key ≡ false) where
  abbrev own_key : WorkUnit → Bool
  own_key = same_key u.kind u.workspace_id u.idem_key

  -- An enqueue under a key puts one new waiting unit at the end of the table and returns it, if no
  -- unit of the kind and workspace has the key; else it changes nothing and returns, as a
  -- duplicate, a unit of the table that has it. For a request with a lane, a kind that the schema
  -- knows and a key.
  pub enqueue_once :
      (count own_key t ≡ 0)
        × (enqueue t u now
            ≡ (t ++ queued_row u (next_id t) now ∷ [], ok (queued_row u (next_id t) now)))
      ⊎ ((r : WorkUnit) × Memᴰ r t × (own_key r ≡ true) × (enqueue t u now ≡ (t, duplicate r)))
  enqueue_once = elim (Bool-cases (any own_key t)) [
    | inl e ↦
        let (r, q) = any-find? own_key t e in
        let (m, k) = find?-sound own_key t q in
        inr (
          r,
          m,
          k,
          enqueue_taken t u now has_lane known keyed r (unfold by_idem in rw q)
              (key_taken-queued_row t u (next_id t) now keyed ∙ e),
        )
    | inr e ↦ inl (
      count_of_not_any own_key t e,
      enqueue_free t u now has_lane known (key_taken-queued_row t u (next_id t) now keyed ∙ e),
    )
  ]
