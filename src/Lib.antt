-- ===== src/Lib.antt =====
-- A model of the core of Cogitorium, a self-hosted server for agents that work unattended, and the
-- theorems that make it correct. Every definition is translated from the Go source that its file
-- names; paths are from the repository's root.
--
-- The work queue (internal/work) decides which unit of work runs: everything that an agent does, a
-- delivery, a chat turn, a callback or a task of a plugin, is a row of one table, and a lane (a
-- workspace) runs one unit at a time. Workers claim units and settle them.
--   Work/Rows       the table of store/migrations/0022 and 0036, its indexes and its statements
--   Work/Store      the operations of Store in work.go: enqueue, claim, settle, kill, release_claims,
--                   depth, total_depth, prune and claim_now
--   Work/Waiting    its listing, Waiting
--   Work/Pool       pool.go: options, cancel, the life of a unit in execute, the worker's loop
--   Work/Counting, Invariant, Claim, Steps, Life, Single, Fresh, Lanes, Keys, Worked, Progress   the proofs
-- A planboard (internal/planboard) is an ordered plan whose position is kept per attachment, and
-- the engine hands an agent the step at that position.
--   Planboard/Rows, Catalogue   planboard.go: save, get, get_by_name, delete
--   Planboard/Position, Active  position.go: bind, unbind, state, done, blocked, reset, seek,
--                               set_state, begin_run, active and begin_run_for
--   Planboard/Listing           List and Bindings
--   Planboard/Bounds, Moves, Edits, Attach, Walk, Progress, Effects, Saved, Fronts, Served   the proofs
-- A schedule (internal/schedule) is a row with a text that says when a delivery recurs, and a tick that
-- fires what is due.
--   Schedule/Duration, Spec   Parse: the duration form and the five fields of cron
--   Schedule/Next             Next and matches
--   Schedule/Table, Store     store.go: the table, and every operation of Store
--   Schedule/Tick             fire in internal/server/schedule_tick.go: what one due schedule does to the
--                             table and to the work queue
--   Schedule/Firing, Ranges, Later, Targets, Rewritten, Waits, Once   the proofs
-- Plugins (internal/plugin) compose in layers, a later one over an earlier one.
--   Plugin/Order    order.go: LayerOrder, its edges, its loop and its moves
--   Plugin/Name     name.go: ParseName, ownership, Appends and SplitAlias
--   Plugin/Version  manifest.go: parseVersion, Compare, ParseConstraint and Satisfied
--   Plugin/Degrees, Kahn, Edges, Start, Layers, Naming, Comparing, Interval   the proofs
-- The line diff (internal/view/linediff.go) shows what changed in a gear before it is approved.
--   View/Diff       DiffLines and splitLines
--   View/Table, Longest, Lines   the proofs
-- The egress broker (internal/egress/broker.go) lets a paused turn wait for one approval.
--   Egress/Broker   Open, Close, Wait and Resolve, over requests shared by pointer
--   Egress/Events   every interleaving of their steps, as a sequence of events
--   Egress/Sound, Final   the proofs
-- The inlet (internal/inlet/schema.go) checks a delivered body against the JSON Schema of its task
-- before any model is called, and an answer against the one that it promised.
--   Inlet/Json, Keyword   JSON values with their numbers as text, and the keywords
--   Inlet/Schema          CheckSchema and checkNode: the subset of JSON Schema
--   Inlet/Validate, Body  validate; ValidatePayload and ValidateAnswer
--   Inlet/Fits            what a schema means, as a relation
--   Inlet/Checks, Types, Accepted, Refusals, Sound, Acceptance, Complete, Door, Fuel, Enough,
--   Enforced, Supported, Whole      the proofs
-- The search policy (internal/websearch/policy.go) decides what a web search may reach and say.
--   Websearch/Address, Authority, Query   permit, checkAuthority and ValidateQuery
--   Websearch/Octets, Groups, Reach, Written, Permitted, Approved   the proofs
-- Redaction (internal/secrets/redact.go) removes the values of a run's secrets from what it puts out.
--   Secrets/Redact      NewRedactor, String, and Stream: a stream is its carry
--   Secrets/Tap         Tap: the streams by name, and the calls of the sink
--   Secrets/Hidden, Firm, Across, Stream, Kept, Apart, Tapped   the proofs
-- The retry of a request to a language model (internal/llm/retry.go).
--   Llm/Retry               Retryable, httpErrorOf, retryAfter and send
--   Llm/Sending, Retried    the proofs
-- Prelude and its children hold what all of them share: texts as lists of code points, tests on
-- numbers, lists.
--
-- Conventions. The store has a single connection, so a statement and a transaction are atomic. An
-- operation is one step also where the source runs several statements (an insert and the read of the
-- new row, a read of a position and its update): nothing is taken to come between them. Other
-- interleavings of callers are sequences of steps. A table is a list of rows in the order of
-- insertion; an id is one more than the largest. The clock is an argument: whole seconds in Work, as
-- RFC3339 shows them, the column's text in Planboard, nanoseconds in Schedule
-- (seconds in its table). Errors are values,
-- without their texts. Errors of the database other than its constraints are not modelled. Texts are
-- folded to lower case where that gives ASCII: the letters A to Z, the Kelvin sign (k) and the dotted
-- I (i); other letters are taken as they are. Tap is called by one goroutine at a time: its sink is
-- called outside the mutex, and calls that overlap are not modelled. A request is
-- opened at the broker once, when it is made, as the engine does.
--
-- Parameters. A runner's end (Work/Pool), the building of a scheduled unit (Schedule/Tick), the zone's calendar (Schedule/Next) and the contribution
-- of a fraction in a duration, which goes through floats (Schedule/Duration); the first
-- value that the JSON decoder reads of a text and what it leaves unread, and what
-- the code asks of a float64 (Inlet/Validate, Body); the addresses of this machine, url.Parse,
-- net.SplitHostPort and the classes of letters and numbers (Websearch); the request, the date of a header
-- and the end of a context (Llm).
--
-- Fuel. claim_loop has the three attempts of the source. work_off has fuel, and more of it than units
-- wait is enough. search_from counts the minutes of 366 days, as the source does. kahn has a round for
-- each id and walk one for each line, which are enough. values_from has `rounds`, which is enough for
-- every range whose end and step do not overflow together. check_node and validate have a round for each
-- level of the schema and of the value, which are enough. send_loop has the three attempts that end the
-- loop of the source, and more rounds change nothing.
--
-- Not modelled: display names, logging, metrics, the goroutines of the pool, the zone database, and
-- the parts of the repository that no file names.
pub mod Prelude
pub mod Work
pub mod Planboard
pub mod Schedule
pub mod Plugin
pub mod View
pub mod Egress
pub mod Inlet
pub mod Websearch
pub mod Llm
pub mod Secrets
