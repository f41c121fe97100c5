-- ===== src/Work/Store.antt =====
-- internal/work/work.go: the queue's operations. `now` is the clock at the call.
use cogitorium.Prelude.{
  ℕ, zero, suc, ◌-◌, Bool, ◌&&◌, ◌||◌, Option, none, some, [], ◌∷◌, ◌==◌, leb, if◌then◌else◌, Text,
  codes, is_empty, count, find?, any,
}
use cogitorium.Work.Rows.{
  State, queued, claimed, done, dead, is_queued, is_claimed, is_settled, WorkUnit, Table, has_id,
  queued_in, claimed_in, same_key, next_id, Insert, stored, check_failed, unique_failed, insert,
  update, delete, oldest_runnable,
}

-- The errors that the operations return; `storage` is any other error of the database.
pub data Err : Type 0 where
  no_lane not_found lane_busy storage : Err

-- A `(Unit, error)` result. `duplicate u` is `u, ErrDuplicate`: the unit comes with the error.
pub data Reply : Type 0 where
  ok : WorkUnit → Reply
  duplicate : WorkUnit → Reply
  err : Err → Reply

-- The `Unit` that a caller passes to Enqueue and ClaimNow: the fields that they read. `none` for
-- run_after and deadline is the zero time, and the empty idem_key is no key.
pub record Request : Type 0 where
  pub kind : Text
  pub workspace_id : ℕ
  pub lane : Text
  pub args : Text
  pub idem_key : Text
  pub run_id : Option ℕ
  pub run_after : Option ℕ
  pub deadline : Option ℕ
  pub max_attempts : ℕ

abbrev pub args_or_default : Text → Text
args_or_default [] = codes "{}"
args_or_default (c ∷ s) = c ∷ s

abbrev pub key_of : Text → Option Text
key_of [] = none
key_of (c ∷ s) = some (c ∷ s)

abbrev pub or_now : Option ℕ → ℕ → ℕ
or_now none now = now
or_now (some at) now = at

-- the row that Enqueue inserts
unfoldable pub queued_row : Request → ℕ → ℕ → WorkUnit
queued_row u id now = record {
  id = id;
  kind = u.kind;
  workspace_id = u.workspace_id;
  lane = u.lane;
  args = args_or_default u.args;
  idem_key = key_of u.idem_key;
  state = queued;
  run_id = u.run_id;
  run_after = or_now u.run_after now;
  deadline = u.deadline;
  attempts = 0;
  max_attempts = if leb u.max_attempts 0 then 1 else u.max_attempts;
  last_error = [];
  created_at = now;
  updated_at = now;
}

-- the row that ClaimNow inserts
unfoldable pub claimed_row : Request → ℕ → ℕ → WorkUnit
claimed_row u id now = record {
  id = id;
  kind = u.kind;
  workspace_id = u.workspace_id;
  lane = u.lane;
  args = args_or_default u.args;
  idem_key = none;
  state = claimed;
  run_id = u.run_id;
  run_after = now;
  deadline = none;
  attempts = 1;
  max_attempts = 1;
  last_error = [];
  created_at = now;
  updated_at = now;
}

abbrev pub found : Option WorkUnit → Reply
found none = err not_found
found (some u) = ok u

unfoldable pub get : Table → ℕ → Reply
get t id = found (find? (has_id id) t)

unfoldable pub by_idem : Table → Text → ℕ → Text → Reply
by_idem t kind workspace_id key = found (find? (same_key kind workspace_id key) t)

-- the existing unit under the key, or the insert's own error
abbrev pub as_duplicate : Reply → Reply
as_duplicate (ok u) = duplicate u
as_duplicate _ = err storage

abbrev pub enqueued : Table → Request → ℕ → Insert → Table × Reply
enqueued t u id (stored t') = (t', get t' id)
enqueued t u id check_failed = (t, err storage)
enqueued t u id unique_failed = (
  t,
  if is_empty u.idem_key
      then err storage
      else as_duplicate (by_idem t u.kind u.workspace_id u.idem_key),
)

unfoldable pub enqueue : Table → Request → ℕ → Table × Reply
enqueue t u now =
    let id = next_id t in
    if is_empty u.lane then (t, err no_lane) else enqueued t u id (insert t (queued_row u id now))

-- SET state = 'claimed', attempts = attempts + 1, updated_at = ?
unfoldable pub claim_row : ℕ → WorkUnit → WorkUnit
claim_row now r = record r { state = claimed; attempts = suc r.attempts; updated_at = now }

-- How one execution of the claim's statement ends.
pub data Attempt : Type 0 where
  taken : WorkUnit → Table → Attempt
  nothing conflict : Attempt

-- UPDATE ... WHERE id = ? RETURNING, refused by the lane's index if the lane holds a claim
unfoldable pub claim_id : Table → ℕ → WorkUnit → Attempt
claim_id t now w =
    if any (claimed_in w.lane) t
    then conflict
    else taken (claim_row now w) (update (has_id w.id) (claim_row now) t)

unfoldable pub claim_attempt : Table → ℕ → Attempt
claim_attempt t now = elim (oldest_runnable t now) [ none ↦ nothing | some w ↦ claim_id t now w ]

-- the loop of Claim: a conflict is tried again, with the same instant
unfoldable pub claim_loop : ℕ → Table → ℕ → Table × Reply
claim_loop zero t now = (t, err not_found)
claim_loop (suc tries) t now = elim (claim_attempt t now) [
  | taken u t' ↦ (t', ok u)
  | nothing ↦ (t, err not_found)
  | conflict ↦ claim_loop tries t now
]

unfoldable pub claim : Table → ℕ → Table × Reply
unfolding claim_loop
claim t now = claim_loop 3 t now

-- a state, an error text and a time, as Settle, Kill and ReleaseClaims write them
unfoldable pub finish_row : State → Text → ℕ → WorkUnit → WorkUnit
finish_row s text now r = record r { state = s; last_error = text; updated_at = now }

-- an UPDATE whose `RowsAffected() == 0` is ErrNotFound
unfoldable pub update_or_missing :
    (WorkUnit → Bool) → (WorkUnit → WorkUnit) → Table → Table × Option Err
update_or_missing p f t = (update p f t, if count p t == 0 then some not_found else none)

abbrev pub claimed_with : ℕ → WorkUnit → Bool
claimed_with id r = r.id == id && is_claimed r.state

abbrev pub live_with : ℕ → WorkUnit → Bool
live_with id r = r.id == id && (is_queued r.state || is_claimed r.state)

unfoldable pub settle : Table → ℕ → Text → ℕ → Table × Option Err
unfolding update_or_missing
settle t id text now = update_or_missing (claimed_with id) (finish_row done text now) t

unfoldable pub kill : Table → ℕ → Text → ℕ → Table × Option Err
unfolding update_or_missing
kill t id reason now = update_or_missing (live_with id) (finish_row dead reason now) t

abbrev pub restart_text : Text
restart_text = codes "the server restarted while this was running"

abbrev pub claimed_anywhere : WorkUnit → Bool
claimed_anywhere r = is_claimed r.state

abbrev pub queued_anywhere : WorkUnit → Bool
queued_anywhere r = is_queued r.state

unfoldable pub release_claims : Table → ℕ → Table × ℕ
release_claims t now =
    (update claimed_anywhere (finish_row dead restart_text now) t, count claimed_anywhere t)

-- what waits and what runs in one lane
unfoldable pub depth : Table → Text → ℕ × ℕ
depth t lane = (count (queued_in lane) t, count (claimed_in lane) t)

unfoldable pub total_depth : Table → ℕ × ℕ
total_depth t = (count queued_anywhere t, count claimed_anywhere t)

abbrev pub prunable : ℕ → WorkUnit → Bool
prunable cutoff r = is_settled r.state && leb r.updated_at cutoff

-- settled rows whose last change is not after `now - older_than`
unfoldable pub prune : Table → ℕ → ℕ → Table × ℕ
prune t older_than now =
    (delete (prunable (now - older_than)) t, count (prunable (now - older_than)) t)

abbrev pub claimed_reply : Table → ℕ → Insert → Table × Reply
claimed_reply t id (stored t') = (t', get t' id)
claimed_reply t id check_failed = (t, err storage)
claimed_reply t id unique_failed = (t, err lane_busy)

unfoldable pub claim_now : Table → Request → ℕ → Table × Reply
claim_now t u now =
    let id = next_id t in
    if is_empty u.lane
    then (t, err no_lane)
    else claimed_reply t id (insert t (claimed_row u id now))
