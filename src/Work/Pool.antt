-- ===== src/Work/Pool.antt =====
-- internal/work/pool.go: the workers. What a unit does is the injected runner, a parameter here: it
-- returns nil, returns an error or panics.
use cogitorium.Prelude.{
  ℕ, zero, suc, ◌*◌, Bool, not, List, [], ◌∷◌, any, filter, ◌==◌, leb, if◌then◌else◌, Text, codes,
}
use cogitorium.Work.Rows.{WorkUnit, Table}
use cogitorium.Work.Store.{ok, duplicate, err, claim, settle, release_claims}

-- `PoolOptions`, its durations in milliseconds
pub record Options : Type 0 where
  pub workers : ℕ
  pub idle : ℕ
  pub prune_every : ℕ
  pub prune_older_than : ℕ

abbrev or_default : ℕ → ℕ → ℕ
or_default n d = if leb n 0 then d else n

unfoldable pub with_defaults : Options → Options
with_defaults o = record {
  workers = or_default o.workers 4;
  idle = or_default o.idle 250;
  prune_every = or_default o.prune_every (60 * 60 * 1000);
  prune_older_than = or_default o.prune_older_than (7 * 24 * 60 * 60 * 1000);
}

-- How the runner ends.
pub data Outcome : Type 0 where
  returned panicked : Outcome
  failed : Text → Outcome

-- the text that `execute` settles the unit with
abbrev pub settle_text : Outcome → Text
settle_text returned = []
settle_text panicked = codes "the run panicked"
settle_text (failed text) = text

-- The units in flight, by id: the keys of the pool's map `running`.
abbrev pub Running : Type 0
Running = List ℕ

-- Cancel: whether there was anything to interrupt
unfoldable pub cancel : Running → ℕ → Bool
cancel running id = any (λ i. i == id) running

-- execute, up to the call of the runner
unfoldable pub begin : Running → WorkUnit → Running
begin running u = u.id ∷ filter (λ i. not (i == u.id)) running

-- execute, from the runner's end: the unit is settled, whatever the end was, and forgotten. `t` is
-- the table by then, which others may have changed meanwhile.
unfoldable pub end : Table → Running → WorkUnit → Outcome → ℕ → Table × Running
end t running u outcome now =
    ((settle t u.id (settle_text outcome) now).0, filter (λ i. not (i == u.id)) running)

-- A worker's loop until a claim finds nothing, with no one else at work and the clock standing
-- still; the fuel bounds the rounds.
unfoldable pub work_off : ℕ → Table → ℕ → (WorkUnit → Outcome) → Table
work_off zero t now runner = t
work_off (suc fuel) t now runner = elim (claim t now).1 [
  | ok u ↦ work_off fuel (end (claim t now).0 [] u (runner u) now).0 now runner
  | duplicate u ↦ (claim t now).0
  | err e ↦ (claim t now).0
]

-- Start, before the workers begin
unfoldable pub start : Table → ℕ → Table
start t now = (release_claims t now).0
