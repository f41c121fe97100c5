-- ===== src/Work/Rows.antt =====
-- The table `work` of internal/store/migrations/0022_work_queue.sql (rebuilt by 0036) and the
-- statements that internal/work/work.go runs on it. Rows stand in the order of insertion. A time is
-- the number of whole seconds that its RFC3339 column shows, so that the comparison of two columns
-- is that of the numbers; `none` is the empty column. The store has one connection, so a statement
-- is atomic.
use mathlib.Core.List.{foldr}
use Prim.Native.Nat.{max}
use cogitorium.Prelude.{
  ℕ, suc, Bool, true, false, not, ◌&&◌, ◌||◌, Option, none, some, List, [], ◌∷◌, ◌++◌, ◌==◌, leb,
  ltb, if◌then◌else◌, Text, codes, text_eq, any, filter,
}

pub data State : Type 0 where
  queued claimed done dead : State

abbrev pub is_queued : State → Bool
is_queued queued = true
is_queued _ = false

abbrev pub is_claimed : State → Bool
is_claimed claimed = true
is_claimed _ = false

-- `state IN ('done', 'dead')`
abbrev pub is_settled : State → Bool
is_settled done = true
is_settled dead = true
is_settled _ = false

-- `type Unit`; the empty Go strings for idem_key stand for NULL
pub record WorkUnit : Type 0 where
  pub id : ℕ
  pub kind : Text
  pub workspace_id : ℕ
  pub lane : Text
  pub args : Text
  pub idem_key : Option Text
  pub state : State
  pub run_id : Option ℕ
  pub run_after : ℕ
  pub deadline : Option ℕ
  pub attempts : ℕ
  pub max_attempts : ℕ
  pub last_error : Text
  pub created_at : ℕ
  pub updated_at : ℕ

abbrev pub Table : Type 0
Table = List WorkUnit

abbrev pub has_id : ℕ → WorkUnit → Bool
has_id id r = r.id == id

abbrev pub queued_in : Text → WorkUnit → Bool
queued_in lane r = text_eq r.lane lane && is_queued r.state

abbrev pub claimed_in : Text → WorkUnit → Bool
claimed_in lane r = text_eq r.lane lane && is_claimed r.state

abbrev pub key_is : Option Text → Text → Bool
key_is none key = false
key_is (some k) key = text_eq k key

-- `kind = ? AND workspace_id = ? AND idem_key = ?`
unfoldable pub same_key : Text → ℕ → Text → WorkUnit → Bool
same_key kind workspace_id key r =
    text_eq r.kind kind && r.workspace_id == workspace_id && key_is r.idem_key key

-- `CHECK (kind IN (...))`
unfoldable pub known_kind : Text → Bool
known_kind k =
    text_eq k (codes "delivery")
    || text_eq k (codes "chat")
    || text_eq k (codes "callback")
    || text_eq k (codes "plugin")

-- An id of `INTEGER PRIMARY KEY`: one more than the largest in the table.
unfoldable pub next_id : Table → ℕ
next_id t = suc (foldr (λ r m. max r.id m) 0 t)

-- `idx_work_lane_claimed`: a claimed row needs its lane free of claims
unfoldable pub lane_taken : Table → WorkUnit → Bool
lane_taken t r = is_claimed r.state && any (claimed_in r.lane) t

-- `idx_work_idem`: a key is unique within its kind and workspace
unfoldable pub key_taken : Table → WorkUnit → Bool
key_taken t r = elim r.idem_key [
  | none ↦ false
  | some key ↦ any (same_key r.kind r.workspace_id key) t
]

pub data Insert : Type 0 where
  stored : Table → Insert
  check_failed unique_failed : Insert

-- INSERT INTO work
unfoldable pub insert : Table → WorkUnit → Insert
insert t r =
    if not (known_kind r.kind)
    then check_failed
    else if lane_taken t r || key_taken t r
    then unique_failed
    else stored (t ++ r ∷ [])

-- UPDATE work SET ... WHERE: the rows that pass the test are rewritten in place
unfoldable pub update : (WorkUnit → Bool) → (WorkUnit → WorkUnit) → Table → Table
update p f [] = []
update p f (r ∷ t) = (if p r then f r else r) ∷ update p f t

-- DELETE FROM work WHERE
unfoldable pub delete : (WorkUnit → Bool) → Table → Table
delete p t = filter (λ r. not (p r)) t

-- ORDER BY run_after, id
unfoldable pub earlier : WorkUnit → WorkUnit → Bool
earlier a b = ltb a.run_after b.run_after || (a.run_after == b.run_after && ltb a.id b.id)

abbrev better : WorkUnit → Option WorkUnit → WorkUnit
better r none = r
better r (some s) = if earlier s r then s else r

-- ORDER BY run_after, id LIMIT 1
unfoldable pub first_by_order : Table → Option WorkUnit
unfolding earlier
first_by_order [] = none
first_by_order (r ∷ t) = some (better r (first_by_order t))

-- the subquery of the claim: queued, due, and in a lane with no claimed row
unfoldable pub runnable : Table → ℕ → WorkUnit → Bool
runnable t at r = is_queued r.state && leb r.run_after at && not (any (claimed_in r.lane) t)

unfoldable pub oldest_runnable : Table → ℕ → Option WorkUnit
oldest_runnable t at = first_by_order (filter (runnable t at) t)
