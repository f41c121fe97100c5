-- ===== src/Schedule/Tick.antt =====
-- fire and enqueueScheduled in internal/server/schedule_tick.go: what one due schedule does to the
-- table of schedules and to the work queue. `enqueue` stands for the three ways of building a unit
-- and queueing it, nothing where that fails, and `utc` for the zone of a schedule whose own is gone.
use cogitorium.Prelude.{
  ℕ, Bool, true, false, ◌&&◌, ◌||◌, Option, none, some, find?, if◌then◌else◌, Text, codes, text_eq,
}
use cogitorium.Work.Rows
use cogitorium.Work.Rows.{WorkUnit, has_id, is_queued, is_claimed}
use cogitorium.Schedule.Spec.{Spec, parse}
use cogitorium.Schedule.Next.{Calendar, next}
use cogitorium.Schedule.Table.{ScheduleRow, Table, stamp, broken}
use cogitorium.Schedule.Store.{advance, note_unit, set_enabled}
use cogitorium.Schedule.Spec

pub record World : Type 0 where
  pub table : Table
  pub queue : Rows.Table

abbrev pub zone_or : Calendar → Option Calendar → Calendar
zone_or utc none = utc
zone_or utc (some cal) = cal

-- the previous unit is queued or claimed
abbrev pub is_running : Option WorkUnit → Bool
is_running none = false
is_running (some u) = is_queued u.state || is_claimed u.state

unfoldable pub previous_runs : Rows.Table → Option ℕ → Bool
previous_runs q none = false
previous_runs q (some id) = is_running (find? (has_id id) q)

module _ (fraction : Text → ℕ → ℕ) (location : Text → Option Calendar) (utc : Calendar)
    (enqueue : ScheduleRow → Rows.Table → Option ℕ × Rows.Table) where
  unfoldable pub enqueue_scheduled : ScheduleRow → Rows.Table → Option ℕ × Rows.Table
  unfolding broken
  enqueue_scheduled sc q = if broken sc then (none, q) else enqueue sc q

  -- the schedule is switched off
  unfoldable pub disable : ℕ → World → ℕ → World
  unfolding set_enabled
  disable at w id = record w { table = (set_enabled fraction location w.table at id false).0 }

  -- after the firing is won
  abbrev pub fired : ℕ → World → ScheduleRow → ℕ → Option ℕ × Rows.Table → World
  fired at w sc n (some unit_id, q) = record {
    table = note_unit w.table at sc.id unit_id;
    queue = q;
  }
  fired at w sc n (none, q) =
      let failed : World = record {
        table = (advance w.table at sc.id (stamp n) n (codes "failed") sc.last_work_id).0;
        queue = q;
      } in
      if broken sc then disable at failed sc.id else failed

  abbrev pub if_won : ℕ → World → ScheduleRow → ℕ → Table × Bool → World
  if_won at w sc n (t, false) = record w { table = t }
  if_won at w sc n (t, true) = fired at (record w { table = t }) sc n (enqueue_scheduled sc w.queue)

  -- with the next firing at hand
  unfoldable pub fire_at : ℕ → World → ScheduleRow → ℕ → World
  unfolding advance note_unit enqueue_scheduled disable previous_runs broken text_eq
  fire_at at w sc n =
      if text_eq sc.on_miss (codes "skip") && previous_runs w.queue sc.last_work_id
      then record w {
        table = (advance w.table at sc.id sc.next_at n (codes "skipped") sc.last_work_id).0;
      }
      else if_won at w sc n (advance w.table at sc.id sc.next_at n (codes "fired") sc.last_work_id)

  abbrev pub fire_or_disable : ℕ → World → ScheduleRow → Option ℕ → World
  fire_or_disable at w sc none = disable at w sc.id
  fire_or_disable at w sc (some n) = fire_at at w sc n

  abbrev pub fire_spec : ℕ → World → ScheduleRow → Spec.Result Spec → World
  fire_spec at w sc (Spec.err e) = disable at w sc.id
  fire_spec at w sc (Spec.ok spec) =
      fire_or_disable at w sc (next spec at (zone_or utc (location sc.tz)))

  -- fire
  unfoldable pub fire : ℕ → World → ScheduleRow → World
  unfolding parse next disable fire_at
  fire at w sc = fire_spec at w sc (parse fraction sc.spec)
