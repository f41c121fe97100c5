-- ===== src/Work/Counting.antt =====
-- Counting the rows of the table `work` through its statements.
use mathlib.Core.List.{foldr}
use Prim.Native.Nat.{max}
use cogitorium.Prelude.{
  ℕ, ◌+◌, ◌≤◌, ◌<◌, ◌≡◌, refl, ap, Bool, true, false, not, ◌&&◌, [], ◌∷◌, ◌++◌, arith, any, count,
  Memᴰ, All, Bool-cases, count_disjoint, count_pos, ==_refl, length, inl, inr,
}
use cogitorium.Work.Rows.{WorkUnit, Table, has_id, update, delete, next_id}

-- A rewrite that brings no row under a test adds nothing to its count.
pub count-update_le :
    (p h : WorkUnit → Bool) (f : WorkUnit → WorkUnit) (t : Table)
    → ((r : WorkUnit) → p r ≡ true → h (f r) ≡ true → h r ≡ true)
    → count h (update p f t) ≤ count h t
unfolding update
count-update_le p h f [] k = omega arith
count-update_le p h f (r ∷ t) k = ground (arith, k r, count-update_le p h f t k)

pub count-update_eq :
    (p h : WorkUnit → Bool) (f : WorkUnit → WorkUnit) (t : Table)
    → ((r : WorkUnit) → p r ≡ true → h (f r) ≡ h r)
    → count h (update p f t) ≡ count h t
unfolding update
count-update_eq p h f [] k = refl
count-update_eq p h f (r ∷ t) k = ground (arith, k r, count-update_eq p h f t k)

-- A rewrite adds at most the rewritten rows that pass afterwards.
pub count-update_add :
    (p h : WorkUnit → Bool) (f : WorkUnit → WorkUnit) (t : Table)
    → count h (update p f t) ≤ count h t + count (λ r. p r && h (f r)) t
unfolding update
count-update_add p h f [] = omega arith
count-update_add p h f (r ∷ t) = ground (arith, count-update_add p h f t)

pub count-update_zero :
    (p h : WorkUnit → Bool) (f : WorkUnit → WorkUnit) (t : Table)
    → ((r : WorkUnit) → p r ≡ true → h (f r) ≡ false)
    → ((r : WorkUnit) → h r ≡ true → p r ≡ true)
    → count h (update p f t) ≡ 0
unfolding update
count-update_zero p h f [] a b = refl
count-update_zero p h f (r ∷ t) a b = ground (arith, a r, b r, count-update_zero p h f t a b)

-- A rewrite after which no rewritten row passes takes those that passed off the count.
pub count-update_drop :
    (p h : WorkUnit → Bool) (f : WorkUnit → WorkUnit) (t : Table)
    → ((r : WorkUnit) → p r ≡ true → h (f r) ≡ false)
    → count h (update p f t) + count (λ r. p r && h r) t ≡ count h t
unfolding update
count-update_drop p h f [] k = omega arith
count-update_drop p h f (r ∷ t) k = ground (arith, k r, count-update_drop p h f t k)

pub length-delete : (p : WorkUnit → Bool) (t : Table) → length (delete p t) + count p t ≡ length t
unfolding delete
length-delete p [] = omega arith
length-delete p (r ∷ t) = ground (arith, length-delete p t)

pub count-delete_le : (p h : WorkUnit → Bool) (t : Table) → count h (delete p t) ≤ count h t
unfolding delete
count-delete_le p h [] = omega arith
count-delete_le p h (r ∷ t) = ground (arith, count-delete_le p h t)

pub count-delete_eq :
    (p h : WorkUnit → Bool) (t : Table)
    → ((r : WorkUnit) → h r ≡ true → p r ≡ false)
    → count h (delete p t) ≡ count h t
unfolding delete
count-delete_eq p h [] k = refl
count-delete_eq p h (r ∷ t) k = ground (arith, k r, count-delete_eq p h t k)

pub count_of_not_any : (p : WorkUnit → Bool) (t : Table) → any p t ≡ false → count p t ≡ 0
count_of_not_any p [] h = refl
count_of_not_any p (r ∷ t) h = ground (arith, count_of_not_any p t)

pub not_any_of_count : (p : WorkUnit → Bool) (t : Table) → count p t ≡ 0 → any p t ≡ false
not_any_of_count p [] h = refl
not_any_of_count p (r ∷ t) h = ground (arith, not_any_of_count p t)

-- Every id of the table lies below the next one.
ids_below : (t : Table) (i : ℕ) → foldr (λ r m. max r.id m) 0 t < i → count (has_id i) t ≡ 0
ids_below [] i h = refl
ids_below (r ∷ t) i h = ground (arith, ids_below t i)

pub count-next_id : (t : Table) → count (has_id (next_id t)) t ≡ 0
unfolding next_id
count-next_id t = ids_below t _ (omega arith)

-- A predicate that the rewrite keeps on the rows that it reaches.
pub All-update {ℓ} :
    (P : WorkUnit → Type ℓ) (p : WorkUnit → Bool) (f : WorkUnit → WorkUnit) (t : Table)
    → ((r : WorkUnit) → Memᴰ r t → p r ≡ true → P r → P (f r))
    → All P t
    → All P (update p f t)
unfolding update
All-update P p f [] k h = tt
All-update P p f (r ∷ t) k h =
    let rest = All-update P p f t (λ s m. k s (Memᴰ.tail m)) h.1 in
    elim (Bool-cases (p r)) [
      | inl e ↦ rw e (k r (Memᴰ.head refl) e h.0, rest)
      | inr e ↦ rw e (h.0, rest)
    ]

-- Where an id stands for one row, a row on which a test differs has another id.
pub id_of_other :
    (g : WorkUnit → Bool) (t : Table) (r w : WorkUnit)
    → count (has_id w.id) t ≤ 1
    → Memᴰ r t
    → Memᴰ w t
    → g r ≡ true
    → g w ≡ false
    → has_id w.id r ≡ false
id_of_other g t r w one mr mw hr hw = elim (Bool-cases (has_id w.id r)) [
  | inl e ↦
      let both : count (λ s. has_id w.id s && g s) t + count (λ s. has_id w.id s && not (g s)) t
          ≤ count (has_id w.id) t =
        count_disjoint _ _ _ t (λ s k. (ground arith, ground arith)) (λ s k. ground arith) in
      let a : 0 < count (λ s. has_id w.id s && g s) t = count_pos _ t mr (rw (e, hr)) in
      let b : 0 < count (λ s. has_id w.id s && not (g s)) t =
        count_pos _ t mw (ground (arith, ==_refl w.id)) in
      absurd (omega arith)
  | inr e ↦ e
]

pub mem-update_of_not :
    (p : WorkUnit → Bool) (f : WorkUnit → WorkUnit) (t : Table) {r : WorkUnit}
    → Memᴰ r t
    → p r ≡ false
    → Memᴰ r (update p f t)
unfolding update
mem-update_of_not p f [] m e = elim m [ ]
mem-update_of_not p f (s ∷ t) (Memᴰ.head q) e = rw (← ap p q, e) (Memᴰ.head q)
mem-update_of_not p f (s ∷ t) (Memᴰ.tail m) e = Memᴰ.tail (mem-update_of_not p f t m e)

pub mem-append_left : (t : Table) (s : WorkUnit) {r : WorkUnit} → Memᴰ r t → Memᴰ r (t ++ s ∷ [])
mem-append_left [] s m = elim m [ ]
mem-append_left (u ∷ t) s (Memᴰ.head q) = Memᴰ.head q
mem-append_left (u ∷ t) s (Memᴰ.tail m) = Memᴰ.tail (mem-append_left t s m)

pub All-delete {ℓ} :
    (P : WorkUnit → Type ℓ) (p : WorkUnit → Bool) (t : Table) → All P t → All P (delete p t)
unfolding delete
All-delete P p [] h = tt
All-delete P p (r ∷ t) h = elim (Bool-cases (p r)) [
  | inl e ↦ rw e (All-delete P p t h.1)
  | inr e ↦ rw e (h.0, All-delete P p t h.1)
]

pub All-append_one {ℓ} :
    (P : WorkUnit → Type ℓ) (t : Table) (r : WorkUnit) → All P t → P r → All P (t ++ r ∷ [])
All-append_one P [] r h k = (k, tt)
All-append_one P (s ∷ t) r h k = (h.0, All-append_one P t r h.1 k)
