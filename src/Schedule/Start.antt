-- ===== src/Schedule/Start.antt =====
-- When a scheduled task first starts: `first_start` of crates/rustcopy-core/src/schedule.rs. A
-- moment is a day, counted from a Monday, and the nanoseconds of that day. Reading a time back from
-- its text is chrono's work, and a parameter.
use rustcopy.Base.{
  ℕ, zero, suc, ◌+◌, ◌-◌, ◌*◌, ◌%◌, ◌≤◌, ◌≡◌, Bool, ◌&&◌, ◌||◌, Option, some, List, [], ◌==◌,
  nat_eq, list_eq, contains, ltb, if◌then◌else◌, get_elem?, unwrap_or,
}
use rustcopy.Text.{Text}
use rustcopy.Schedule.Spec.{ScheduleSpec, daily, hourly, weekly, weekday_codes, clock_text}

abbrev pub minute_ns : ℕ
minute_ns = 60000000000

abbrev pub day_ns : ℕ
day_ns = 86400000000000

pub record Moment : Type 0 where
  pub day : ℕ
  pub tick : ℕ

-- `a > b`
abbrev pub is_after : Moment → Moment → Bool
is_after a b = ltb b.day a.day || (a.day == b.day && ltb b.tick a.tick)

-- `NaiveTime::parse_from_str(time, "%H:%M")`
abbrev pub TimeReader : Type 0
TimeReader = Text → Option ℕ

-- chrono reads a time of the day as it is written.
abbrev pub ReadsTimes : TimeReader → Type 0
ReadsTimes read =
    (h m : ℕ) → h ≤ 23 → m ≤ 59 → read (clock_text h m) ≡ some ((h * 60 + m) * minute_ns)

abbrev pub at_day : TimeReader → ℕ → Text → Moment
at_day read day time = record { day = day; tick = unwrap_or (read time) 0 }

-- The code of a day's weekday.
abbrev pub weekday_code : ℕ → Text
weekday_code day = unwrap_or (get_elem? weekday_codes (day % 7)) []

module _ (read : TimeReader) where
  -- `for offset in 0..=7`, from an offset on, with the fixed answer behind the loop.
  unfoldable pub search_week : List Text → Text → Moment → ℕ → ℕ → Moment
  search_week days time now offset zero = at_day read (now.day + 1) time
  search_week days time now offset (suc left) =
      let candidate = at_day read (now.day + offset) time in
      let rest = search_week days time now (offset + 1) left in
      if contains days (weekday_code (now.day + offset)) && is_after candidate now
      then candidate
      else rest

  -- One minute on, without the seconds.
  abbrev pub next_minute : Moment → Moment
  next_minute now =
      let tick = now.tick + minute_ns in
      if ltb tick day_ns
      then record { day = now.day; tick = tick - tick % minute_ns }
      else record { day = now.day + 1; tick = tick - day_ns - (tick - day_ns) % minute_ns }

  unfoldable pub first_start : ScheduleSpec → Moment → Moment
  first_start (daily time) now =
      if is_after (at_day read now.day time) now
      then at_day read now.day time
      else at_day read (now.day + 1) time
  first_start (weekly days time) now = search_week days time now 0 8
  first_start (hourly every_n_hours) now = next_minute now
