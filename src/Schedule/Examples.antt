-- ===== src/Schedule/Examples.antt =====
-- The schedule's theorems on a spec for midnight, over a calendar of thirty-day months.
use cogitorium.Prelude.{
  ℕ, ◌+◌, ◌*◌, ◌/◌, ◌%◌, ◌<◌, ◌≡◌, ◌≤◌, inl, inr, refl, true, false, some, [], ◌∷◌, arith, codes,
  pos, Option, none, ◌++◌, Text, text_eq, to_lower, cut_prefix, fields, split, cut, atoi, join,
  trim_space,
}
use cogitorium.Work.Rows
use cogitorium.Schedule.Spec
use cogitorium.Schedule.Spec.{Spec, Range, values, parse}
use cogitorium.Schedule.Table.{ScheduleRow, ok, stamp}
use cogitorium.Schedule.Store.{get, create, update}
use cogitorium.Schedule.Targets.{NamesTarget}
use cogitorium.Schedule.Rewritten.{others}
use cogitorium.Schedule.Waits.{KeepsRecord, create_fresh, update_keeps}
use cogitorium.Schedule.Tick.{World, zone_or, fire}
use cogitorium.Schedule.Once.{fire_once}
use cogitorium.Schedule.Duration.{parse_duration}
use cogitorium.Schedule.Next.{Calendar, minute_ns, horizon, next, search_from, matches}
use cogitorium.Schedule.Firing.{Fires, next_is_first}
use cogitorium.Schedule.Ranges.{Steps, values-Steps}

-- `0 0 * * *`
abbrev midnight : Spec
midnight = record {
  every = 0;
  minutes = pos 0 ∷ [];
  hours = pos 0 ∷ [];
  days = [];
  months = [];
  weekdays = [];
  cron = true;
  text = codes "0 0 * * *";
}

-- `every 15m`
abbrev quarter : Spec
quarter = record {
  every = 900000000000;
  minutes = [];
  hours = [];
  days = [];
  months = [];
  weekdays = [];
  cron = false;
  text = codes "every 15m";
}

abbrev calendar : Calendar
calendar m = record {
  minute = m % 60;
  hour = m / 60 % 24;
  day = m / 1440 % 30 + 1;
  month = m / 43200 % 12 + 1;
  weekday = m / 1440 % 7;
}

next_is_first_example :
    (u : ℕ) × (next midnight 7 calendar ≡ some (u * minute_ns))
    × (7 < u * minute_ns)
    × Fires midnight (calendar u)
    × (u ≤ 2880)
unfolding horizon
next_is_first_example =
    next_is_first midnight 7 calendar 2880 refl (omega arith) (omega arith)
      (record { minute = inr refl; hour = inr refl; month = inl refl; day = inl (refl, refl) })

abbrev every_tenth : Range
every_tenth = record { lo = 5; hi = 30; step = 10 }

values-Steps_example : Steps 5 30 10 (values every_tenth)
values-Steps_example = values-Steps every_tenth (omega arith) (omega arith) (omega arith)

no_fraction : Text → ℕ → ℕ
no_fraction s n = 0

one_zone : Text → Option Calendar
one_zone tz = some calendar

-- an agent that is told something every fifteen minutes
abbrev report : ScheduleRow
report = record {
  id = 0;
  workspace_id = 1;
  target_kind = codes "agent";
  task_id = none;
  target_agent_id = some 4;
  target_gear_id = none;
  instruction = codes "report";
  args = [];
  name = codes "report";
  spec = codes "Every 15m";
  tz = [];
  payload = [];
  enabled = false;
  on_miss = [];
  next_at = 0;
  last_work_id = none;
  last_fired_at = none;
  last_outcome = [];
  fires = 0;
  skips = 0;
  created_at = 0;
  updated_at = 0;
}

-- the row that Create makes of it at the epoch
abbrev stored_report : ScheduleRow
stored_report = record report {
  id = 1;
  args = codes "{}";
  spec = codes "every 15m";
  payload = codes "{}";
  enabled = true;
  on_miss = codes "skip";
  next_at = 900;
}

report_created : (create no_fraction one_zone [] 0 report).1 ≡ ok stored_report
unfolding create no_fraction one_zone to_lower cut_prefix parse_duration
report_created = refl

create_fresh_example :
    (stamp 0 < 900)
    × NamesTarget stored_report
    × ((create no_fraction one_zone [] 0 report).0 ≡ [] ++ (stored_report ∷ []))
create_fresh_example = create_fresh no_fraction one_zone [] 0 report report_created

-- the same row an hour later, told to run each midnight
abbrev midnight_report : ScheduleRow
midnight_report = record stored_report {
  spec = codes "0 0 * * *";
  next_at = 86400;
  updated_at = 3600;
}

abbrev daily_report : ScheduleRow
daily_report = record report { spec = codes "0 0 * * *" }

report_edited :
    (update no_fraction one_zone (stored_report ∷ []) 3600000000000 1 daily_report).1
    ≡ ok midnight_report
unfolding update no_fraction one_zone to_lower cut_prefix fields Spec.parse_field split
    Spec.parse_part cut atoi search_from horizon matches Spec.values_from Spec.add_step join
report_edited = refl

update_keeps_example :
    (old : ScheduleRow) × (get (stored_report ∷ []) 1 ≡ ok old)
    × (stamp 3600000000000 < 86400)
    × KeepsRecord old midnight_report
    × (get (update no_fraction one_zone (stored_report ∷ []) 3600000000000 1 daily_report).0 1
        ≡ ok midnight_report)
    × (others 1 (update no_fraction one_zone (stored_report ∷ []) 3600000000000 1 daily_report).0
        ≡ others 1 (stored_report ∷ []))
update_keeps_example =
    update_keeps no_fraction one_zone (stored_report ∷ []) 3600000000000 1 daily_report
      report_edited

-- a queue that takes every unit as number 7
seventh : ScheduleRow → Rows.Table → Option ℕ × Rows.Table
seventh r q = (some 7, q)

abbrev world : World
world = record { table = stored_report ∷ []; queue = [] }

fired_once :
    (fire no_fraction one_zone calendar seventh 900000000000 world stored_report).table
    ≡ record stored_report {
      next_at = 1800;
      last_work_id = some 7;
      last_fired_at = some 900;
      last_outcome = codes "fired";
      fires = 1;
      updated_at = 900;
    }
      ∷ []
unfolding fire no_fraction one_zone seventh trim_space to_lower cut_prefix parse_duration
fired_once = refl

every_quarter : parse no_fraction (codes "every 15m") ≡ Spec.ok quarter
unfolding parse no_fraction trim_space to_lower cut_prefix parse_duration text_eq
every_quarter = refl

quarter_past : next quarter 900000000000 (zone_or calendar (one_zone [])) ≡ some 1800000000000
unfolding next one_zone
quarter_past = refl

quarter_past_late : next quarter 901000000000 (zone_or calendar (one_zone [])) ≡ some 1801000000000
unfolding next one_zone
quarter_past_late = refl

fire_once_example :
    fire no_fraction one_zone calendar seventh 901000000000
      (fire no_fraction one_zone calendar seventh 900000000000 world stored_report)
      stored_report
    ≡ fire no_fraction one_zone calendar seventh 900000000000 world stored_report
fire_once_example =
    fire_once no_fraction one_zone calendar seventh 900000000000 901000000000 world stored_report
      quarter 1800000000000 1801000000000 (omega arith) every_quarter quarter_past quarter_past_late
