-- ===== src/Work/Invariant.antt =====
-- What the table `work` keeps through every operation of internal/work: one claim to a lane, one
-- row to a key, one row to an id.
use cogitorium.Prelude.{
  ℕ, ◌+◌, ◌≤◌, ◌<◌, ◌≡◌, refl, ap, Bool, true, false, ◌&&◌, [], ◌∷◌, ◌++◌, ◌==◌, arith, any, count,
  Bool-cases, inl, inr, some, Text, text_eq, text_eq→eq, text_eq_refl, count-append, count_disjoint,
  count_pos, count_mono, Memᴰ, Option-cases,
}
use cogitorium.Work.Rows.{
  WorkUnit, Table, has_id, claimed_in, same_key, key_taken, lane_taken, stored, insert, update,
  delete, next_id,
}
use cogitorium.Work.Counting.{
  count-update_le, count-update_eq, count-update_add, count-delete_le, count_of_not_any,
  count-next_id,
}
use cogitorium.Work.Store.{claim_row, claim_id, taken}

pub record WellFormed (t : Table) : Type 0 where
  pub lanes : (lane : Text) → count (claimed_in lane) t ≤ 1
  pub keys :
      (kind : Text) (workspace_id : ℕ) (key : Text) → count (same_key kind workspace_id key) t ≤ 1
  pub ids : (id : ℕ) → count (has_id id) t ≤ 1

pub empty-WellFormed : WellFormed []
empty-WellFormed = record {
  lanes = λ l. omega arith;
  keys = λ k w key. omega arith;
  ids = λ i. omega arith;
}

insert_lane :
    (t : Table) (r : WorkUnit) (lane : Text)
    → count (claimed_in lane) t ≤ 1
    → lane_taken t r ≡ false
    → count (claimed_in lane) (t ++ r ∷ []) ≤ 1
unfolding lane_taken
insert_lane t r lane h free = elim (Bool-cases (claimed_in lane r)) [
  | inl e ↦
      let q : r.lane ≡ lane = text_eq→eq r.lane lane (ground arith) in
      let z : count (claimed_in lane) t ≡ 0 =
        (rw q at (count_of_not_any (claimed_in r.lane) t (ground arith))) in
      rw count-append (ground arith)
  | inr e ↦ rw count-append (ground arith)
]

same_key-fields :
    (kind : Text) (workspace_id : ℕ) (key own : Text) (r : WorkUnit)
    → r.idem_key ≡ some own
    → same_key kind workspace_id key r ≡ true
    → (r.kind ≡ kind) × (r.workspace_id ≡ workspace_id) × (own ≡ key)
unfolding same_key
same_key-fields kind workspace_id key own r e h =
    (text_eq→eq r.kind kind (ground arith), ground arith, text_eq→eq own key (ground arith))

insert_key :
    (t : Table) (r : WorkUnit) (kind : Text) (workspace_id : ℕ) (key : Text)
    → count (same_key kind workspace_id key) t ≤ 1
    → key_taken t r ≡ false
    → count (same_key kind workspace_id key) (t ++ r ∷ []) ≤ 1
unfolding key_taken
insert_key t r kind workspace_id key h free = elim (Bool-cases (same_key kind workspace_id key r)) [
  | inl e ↦ elim (Option-cases r.idem_key) [
    | inl no_key ↦ unfold same_key in ground arith
    | inr (own, q) ↦
        let (a, b, c) = same_key-fields kind workspace_id key own r q e in
        let z : count (same_key r.kind r.workspace_id own) t ≡ 0 =
          count_of_not_any (same_key r.kind r.workspace_id own) t (rw q at free) in
        let z' : count (same_key kind workspace_id key) t ≡ 0 = (rw (a, b, c) at z) in
        rw count-append (ground arith)
  ]
  | inr e ↦ rw count-append (ground arith)
]

insert_id :
    (t : Table) (r : WorkUnit) (id : ℕ)
    → count (has_id id) t ≤ 1
    → r.id ≡ next_id t
    → count (has_id id) (t ++ r ∷ []) ≤ 1
insert_id t r id h fresh = elim (Bool-cases (has_id id r)) [
  | inl e ↦
      let q : next_id t ≡ id = ground arith in
      let z : count (has_id id) t ≡ 0 = (rw q at (count-next_id t)) in
      rw count-append (ground arith)
  | inr e ↦ rw count-append (ground arith)
]

-- An insert that the constraints let through keeps them.
pub insert-WellFormed :
    (t : Table) (r : WorkUnit) {t' : Table}
    → r.id ≡ next_id t
    → insert t r ≡ stored t'
    → WellFormed t
    → WellFormed t'
unfolding insert
insert-WellFormed t r {t'} fresh h w =
    let taken_not : (lane_taken t r ≡ false) × (key_taken t r ≡ false) = ground arith in
    let q : t ++ r ∷ [] ≡ t' = ground arith in
    rw (← q) (record {
      lanes = λ l. insert_lane t r l (w.lanes l) taken_not.0;
      keys = λ k i key. insert_key t r k i key (w.keys k i key) taken_not.1;
      ids = λ i. insert_id t r i (w.ids i) fresh;
    })

-- An update that claims no row and leaves ids and keys alone.
pub update-WellFormed :
    (p : WorkUnit → Bool) (f : WorkUnit → WorkUnit) (t : Table)
    → ((lane : Text) (r : WorkUnit) → claimed_in lane (f r) ≡ true → claimed_in lane r ≡ true)
    → ((kind : Text) (workspace_id : ℕ) (key : Text) (r : WorkUnit)
        → same_key kind workspace_id key (f r) ≡ same_key kind workspace_id key r)
    → ((r : WorkUnit) → (f r).id ≡ r.id)
    → WellFormed t
    → WellFormed (update p f t)
update-WellFormed p f t lane_of key_of id_of w = record {
  lanes =
      λ l. omega (arith, count-update_le p (claimed_in l) f t (λ r _ h. lane_of l r h), w.lanes l);
  keys = λ k i key.
      omega
        (arith, count-update_eq p (same_key k i key) f t (λ r _. key_of k i key r), w.keys k i key);
  ids = λ i.
      omega (
        arith,
        count-update_eq p (has_id i) f t (λ r _. ap (λ (n : ℕ). n == i) (id_of r)),
        w.ids i,
      );
}

pub delete-WellFormed : (p : WorkUnit → Bool) (t : Table) → WellFormed t → WellFormed (delete p t)
delete-WellFormed p t w = record {
  lanes = λ l. omega (arith, count-delete_le p (claimed_in l) t, w.lanes l);
  keys = λ k i key. omega (arith, count-delete_le p (same_key k i key) t, w.keys k i key);
  ids = λ i. omega (arith, count-delete_le p (has_id i) t, w.ids i);
}

lanes_differ :
    (r w : WorkUnit) (now : ℕ) (lane : Text)
    → text_eq w.lane lane ≡ false
    → claimed_in lane (claim_row now r) ≡ true
    → text_eq r.lane w.lane ≡ false
unfolding claim_row
lanes_differ r w now lane other h = elim (Bool-cases (text_eq r.lane w.lane)) [
  | inl e ↦
      let q : r.lane ≡ lane = text_eq→eq r.lane lane (ground arith) in
      let k : text_eq r.lane lane ≡ true = rw q (text_eq_refl lane) in
      cc (text_eq→eq r.lane w.lane e)
  | inr e ↦ e
]

-- Of the other lanes' rows the claim of `w` touches none, since its id is its own.
other_lane :
    (t : Table) (w : WorkUnit) (now : ℕ) (lane : Text)
    → Memᴰ w t
    → count (has_id w.id) t ≤ 1
    → text_eq w.lane lane ≡ false
    → count (λ r. has_id w.id r && claimed_in lane (claim_row now r)) t ≡ 0
other_lane t w now lane m one other =
    let both : count (λ r. has_id w.id r && claimed_in lane (claim_row now r)) t
          + count (λ r. has_id w.id r && text_eq r.lane w.lane) t
        ≤ count (has_id w.id) t =
      count_disjoint _ _ _ t
        (λ r h. (ground (arith, lanes_differ r w now lane other), ground arith))
        (λ r h. ground arith) in
    let here : 0 < count (λ r. has_id w.id r && text_eq r.lane w.lane) t =
      count_pos _ t m (ground (arith, text_eq_refl w.lane)) in
    omega arith

claim_lane :
    (t : Table) (w : WorkUnit) (now : ℕ) (lane : Text)
    → Memᴰ w t
    → any (claimed_in w.lane) t ≡ false
    → WellFormed t
    → count (claimed_in lane) (update (has_id w.id) (claim_row now) t) ≤ 1
claim_lane t w now lane m free wf =
    let add : count (claimed_in lane) (update (has_id w.id) (claim_row now) t)
        ≤ count (claimed_in lane) t
          + count (λ r. has_id w.id r && claimed_in lane (claim_row now r)) t =
      count-update_add (has_id w.id) (claimed_in lane) (claim_row now) t in
    let few : count (λ r. has_id w.id r && claimed_in lane (claim_row now r)) t
        ≤ count (has_id w.id) t =
      count_mono _ _ t (λ r h. ground arith) in
    elim (Bool-cases (text_eq w.lane lane)) [
      | inl e ↦
          let z : count (claimed_in lane) t ≡ 0 =
            count_of_not_any (claimed_in lane) t (rw (text_eq→eq w.lane lane e) at free) in
          omega (arith, wf.ids w.id)
      | inr e ↦ omega (arith, other_lane t w now lane m (wf.ids w.id) e, wf.lanes lane)
    ]

pub claim_update-WellFormed :
    (t : Table) (now : ℕ) (w : WorkUnit)
    → Memᴰ w t
    → any (claimed_in w.lane) t ≡ false
    → WellFormed t
    → WellFormed (update (has_id w.id) (claim_row now) t)
claim_update-WellFormed t now w m free wf = record {
  lanes = λ l. claim_lane t w now l m free wf;
  keys = λ k i key. omega (
    arith,
    count-update_eq (has_id w.id) (same_key k i key) (claim_row now) t
        (λ r _. unfold same_key claim_row in refl),
    wf.keys k i key,
  );
  ids = λ i. omega (
    arith,
    count-update_eq (has_id w.id) (has_id i) (claim_row now) t (λ r _. unfold claim_row in refl),
    wf.ids i,
  );
}

-- The lane's index decides: from a table with one claimed unit to a lane, one unit to a key and one
-- to an id, the claim of any row that the table holds, however it was picked, is refused or leaves
-- such a table.
pub claim_id-WellFormed :
    (t : Table) (now : ℕ) (w : WorkUnit) {u : WorkUnit} {t' : Table}
    → Memᴰ w t
    → claim_id t now w ≡ taken u t'
    → WellFormed t
    → WellFormed t'
unfolding claim_id
claim_id-WellFormed t now w {u} {t'} m h wf =
    let free : any (claimed_in w.lane) t ≡ false = ground arith in
    let q : update (has_id w.id) (claim_row now) t ≡ t' = ground arith in
    rw (← q) (claim_update-WellFormed t now w m free wf)
