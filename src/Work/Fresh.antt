-- ===== src/Work/Fresh.antt =====
-- A row that was just inserted is found again.
use cogitorium.Prelude.{◌≡◌, Bool, true, false, [], ◌∷◌, ◌++◌, arith, count, find?, some, ==_refl}
use cogitorium.Work.Rows.{
  WorkUnit, Table, has_id, known_kind, lane_taken, key_taken, stored, insert, next_id,
}
use cogitorium.Work.Counting.{count-next_id}
use cogitorium.Work.Store.{ok, get}

pub find_fresh :
    (p : WorkUnit → Bool) (t : Table) (r : WorkUnit)
    → count p t ≡ 0
    → p r ≡ true
    → find? p (t ++ r ∷ []) ≡ some r
find_fresh p [] r z h = rw h
find_fresh p (s ∷ t) r z h = ground (arith, find_fresh p t r)

pub get-append :
    (t : Table) (r : WorkUnit) → r.id ≡ next_id t → get (t ++ r ∷ []) (next_id t) ≡ ok r
unfolding get
get-append t r fresh =
    ground (arith, find_fresh (has_id (next_id t)) t r (count-next_id t), ==_refl (next_id t))

pub insert_free :
    (t : Table) (r : WorkUnit)
    → known_kind r.kind ≡ true
    → lane_taken t r ≡ false
    → key_taken t r ≡ false
    → insert t r ≡ stored (t ++ r ∷ [])
unfolding insert
insert_free t r k l i = rw (k, l, i)
