-- ===== src/Schedule/Earliest.antt =====
-- A scheduled task first starts at the first moment that its specification means: from the text of
-- `--install-schedule` to the trigger's start in schedule.rs.
use rustcopy.Base.{
  ℕ, ◌+◌, ◌*◌, ◌%◌, ◌≤◌, ◌<◌, ◌≡◌, refl, ◌∙◌, sym, ap, String, true, false, List, [], ◌∷◌, nat_eq,
  list_eq, contains, ltb, unwrap_or, arith, Bool-cases, inl, inr, eq_self, ok,
}
use rustcopy.Text.{Text}
use rustcopy.Schedule.Spec.{
  ScheduleSpec, daily, hourly, weekly, clock_text, all_codes, parse_schedule_spec,
}
use rustcopy.Schedule.Parsed.{ClockTime, IsParsed, parse_schedule_spec-IsParsed}
use rustcopy.Schedule.Start.{
  minute_ns, day_ns, Moment, is_after, TimeReader, ReadsTimes, at_day, weekday_code, search_week,
  first_start,
}
use rustcopy.Schedule.Search.{tick_of, search_week-FirstOf, coming_day}

-- The moment is at the time of the day that the text writes.
pub record AtTime (time : Text) (m : Moment) : Type 0 where
  pub hour : ℕ
  pub minute : ℕ
  pub hour_bound : hour ≤ 23
  pub minute_bound : minute ≤ 59
  pub written : time ≡ clock_text hour minute
  pub on_time : m.tick ≡ (hour * 60 + minute) * minute_ns

-- The moments that a specification means: each day, or each of some weekdays, at a time, or any
-- full minute.
pub Fires : ScheduleSpec → Moment → Type 0
Fires (daily time) m = AtTime time m
Fires (hourly n) m = (m.tick < day_ns) × (m.tick % minute_ns ≡ 0)
Fires (weekly days time) m = AtTime time m × (contains days (weekday_code m.day) ≡ true)

-- The first of them after a moment.
pub record Earliest (spec : ScheduleSpec) (now start : Moment) : Type 0 where
  pub fires : Fires spec start
  pub later : is_after start now ≡ true
  pub first : (m : Moment) → Fires spec m → is_after m now ≡ true → is_after start m ≡ false

module _ (read : TimeReader) (reads : ReadsTimes read) where
  clock-AtTime :
      (time : Text) (m : Moment) → ClockTime time → m.tick ≡ tick_of read time → AtTime time m
  clock-AtTime time m c same = record {
    hour = c.hour;
    minute = c.minute;
    hour_bound = c.hour_bound;
    minute_bound = c.minute_bound;
    written = c.written;
    on_time =
        same
        ∙ ap (λ t. unwrap_or (read t) 0) c.written
        ∙ ap (λ o. unwrap_or o 0) (reads c.hour c.minute c.hour_bound c.minute_bound);
  }

  AtTime-tick : (time : Text) (m : Moment) → AtTime time m → m.tick ≡ tick_of read time
  AtTime-tick time m a =
      a.on_time
      ∙ sym (
          ap (λ t. unwrap_or (read t) 0) a.written
          ∙ ap (λ o. unwrap_or o 0) (reads a.hour a.minute a.hour_bound a.minute_bound))

  weekly-Earliest :
      (d : Text) (days : List Text) (time : Text) (now : Moment)
      → all_codes (d ∷ days) ≡ true
      → ClockTime time
      → Earliest (weekly (d ∷ days) time) now (search_week read (d ∷ days) time now 0 8)
  unfolding Fires
  weekly-Earliest d days time now valid c =
      let (w, pos, le, same) = coming_day now.day d (ground (arith, valid)) in
      let listed : contains (d ∷ days) (weekday_code (now.day + w)) ≡ true =
        rw same (rw (eq_self d) refl) in
      let f =
        search_week-FirstOf read (d ∷ days) time now 0 8 w
          (λ e low high. absurd (omega (arith, low, high))) pos (omega arith) (omega (arith, le))
          listed in
      record {
        fires = (clock-AtTime time _ c f.on_time, f.on_day);
        later = f.later;
        first = λ m fires after. f.first m (AtTime-tick time m fires.0) fires.1 after;
      }

  daily-Earliest :
      (time : Text) (now : Moment)
      → ClockTime time
      → Earliest (daily time) now (first_start read (daily time) now)
  unfolding Fires first_start nat_eq
  daily-Earliest time now c = elim (Bool-cases (is_after (at_day read now.day time) now)) [
    | inl today ↦ rw today (record {
      fires = clock-AtTime time _ c refl;
      later = today;
      first = λ m fires after. ground (arith, AtTime-tick time m fires, after);
    })
    | inr passed ↦ rw passed (record {
      fires = clock-AtTime time _ c refl;
      later = ground arith;
      first = λ m fires after. ground (arith, AtTime-tick time m fires, after, passed);
    })
  ]

  hourly-Earliest :
      (n : ℕ) (now : Moment)
      → now.tick < day_ns
      → Earliest (hourly n) now (first_start read (hourly n) now)
  unfolding Fires first_start nat_eq
  hourly-Earliest n now bound = elim (Bool-cases (ltb (now.tick + minute_ns) day_ns)) [
    | inl today ↦ rw today (record {
      fires = (ground (arith, today), omega arith);
      later = ground arith;
      first = λ m fires after. ground (arith, today, fires.0, fires.1, after);
    })
    | inr tomorrow ↦ rw tomorrow (record {
      fires = (ground (arith, tomorrow, bound), omega arith);
      later = ground arith;
      first = λ m fires after. ground (arith, tomorrow, bound, fires.0, fires.1, after);
    })
  ]

  parsed-Earliest :
      (spec : ScheduleSpec) (now : Moment)
      → IsParsed spec
      → now.tick < day_ns
      → Earliest spec now (first_start read spec now)
  unfolding first_start
  parsed-Earliest (daily time) now p bound = unfold first_start in daily-Earliest time now p
  parsed-Earliest (hourly n) now p bound = unfold first_start in hourly-Earliest n now bound
  parsed-Earliest (weekly [] time) now p bound = absurd p
  parsed-Earliest (weekly (d ∷ days) time) now p bound = weekly-Earliest d days time now p.0 p.1

-- A specification that is accepted first starts at the earliest moment, later than now, that it
-- means: each day, or on the listed weekdays, at the time that is written, or at a full minute.
-- (chrono reads a time as it is written, and now is a time of its day.)
pub first_start-Earliest :
    (read : TimeReader) (text : String) (spec : ScheduleSpec) (now : Moment)
    → ReadsTimes read
    → parse_schedule_spec text ≡ ok spec
    → now.tick < day_ns
    → Earliest spec now (first_start read spec now)
first_start-Earliest read text spec now reads parsed bound =
    parsed-Earliest read reads spec now (parse_schedule_spec-IsParsed text spec parsed) bound
