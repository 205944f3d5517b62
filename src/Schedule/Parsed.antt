-- ===== src/Schedule/Parsed.antt =====
-- What a specification holds once parse_schedule_spec of schedule.rs has read it.
use rustcopy.Base.{
  ℕ, subst, ◌≤◌, ◌≡◌, refl, String, true, ◌&&◌, Option, none, some, List, [], ◌∷◌, ◌++◌, map,
  list_eq, nat_eq, ◌==◌, leb, ok, >>=-ok, arith, Bool-cases, inl, inr, Option-cases,
}
use rustcopy.Errors.{IngestError, invalid_schedule_spec}
use rustcopy.Strings.{codes}
use rustcopy.Text.{Text}
use rustcopy.Schedule.Spec.{
  ScheduleSpec, daily, hourly, weekly, split_once, split_from, parse_u32, clock_text, checked_time,
  parse_time, day_of, all_codes, ok_or, parse_daily, parse_hourly, parse_weekly, parse_kind,
  parse_schedule_spec,
}

-- A time of the day, written `HH:MM`.
pub record ClockTime (t : Text) : Type 0 where
  pub hour : ℕ
  pub minute : ℕ
  pub hour_bound : hour ≤ 23
  pub minute_bound : minute ≤ 59
  pub written : t ≡ clock_text hour minute

checked_time-ClockTime : (h m : Option ℕ) (t : Text) → checked_time h m ≡ some t → ClockTime t
checked_time-ClockTime none m t e = cc
checked_time-ClockTime (some h) none t e = cc
checked_time-ClockTime (some h) (some m) t e = record {
  hour = h;
  minute = m;
  hour_bound = ground (arith, e);
  minute_bound = ground (arith, e);
  written = ground (arith, e);
}

parse_time-ClockTime : (raw t : Text) → parse_time raw ≡ some t → ClockTime t
unfolding parse_time
parse_time-ClockTime raw t e = elim (Option-cases (split_once b':' raw)) [
  | inl missing ↦ absurd (ground (arith, e, missing))
  | inr ((h, m), found) ↦
      checked_time-ClockTime (parse_u32 h) (parse_u32 m) t (rw (found, parse_time) at e)
]

-- A specification that can be installed.
abbrev pub IsParsed : ScheduleSpec → Type 0
IsParsed (daily t) = ClockTime t
IsParsed (hourly n) = (1 ≤ n) × (n ≤ 23)
IsParsed (weekly [] t) = ⊥
IsParsed (weekly (d ∷ days) t) = (all_codes (d ∷ days) ≡ true) × ClockTime t

ok_or-some {ℓ} :
    {A : Type ℓ} (o : Option A) (e : IngestError) (a : A) → ok_or o e ≡ ok a → o ≡ some a
ok_or-some none e a h = cc
ok_or-some (some b) e a h = cc

parse_daily-IsParsed :
    (invalid : IngestError) (rest : Text) (spec : ScheduleSpec)
    → parse_daily invalid rest ≡ ok spec
    → IsParsed spec
unfolding parse_daily
parse_daily-IsParsed invalid rest spec h =
    let (t, read, done) = >>=-ok (ok_or (parse_time rest) invalid) _ h in
    let made : daily t ≡ spec = cc done in
    subst IsParsed made (parse_time-ClockTime rest t (ok_or-some _ invalid t read))

parse_hourly-IsParsed :
    (invalid : IngestError) (rest : Text) (spec : ScheduleSpec)
    → parse_hourly invalid rest ≡ ok spec
    → IsParsed spec
unfolding parse_hourly
parse_hourly-IsParsed invalid rest spec h =
    let (n, read, done) = >>=-ok (ok_or (parse_u32 rest) invalid) _ h in
    elim (Bool-cases (leb 1 n && leb n 23)) [
      | inl inside ↦
          let made : hourly n ≡ spec = ground (arith, done, inside) in
          subst IsParsed made (ground (arith, inside), ground (arith, inside))
      | inr outside ↦ absurd (ground (arith, done, outside))
    ]

-- A list of days is not empty.
split_from-cons :
    (c : ℕ) (piece t : Text) → (d : Text) × (days : List Text) × (split_from c piece t ≡ d ∷ days)
unfolding split_from
split_from-cons c piece [] = (piece, [], refl)
split_from-cons c piece (e ∷ t) = elim (Bool-cases (e == c)) [
  | inl cut ↦ (piece, split_from c [] t, rw (cut, split_from) refl)
  | inr goes_on ↦
      let (d, days, rest) = split_from-cons c (piece ++ (e ∷ [])) t in
      (d, days, rw (goes_on, split_from) rest)
]

days_read :
    (raw t : Text)
    → all_codes (map day_of (split_from b',' [] raw)) ≡ true
    → ClockTime t
    → IsParsed (weekly (map day_of (split_from b',' [] raw)) t)
days_read raw t codes_only clock =
    let (d, days, split) = split_from-cons b',' [] raw in rw split (rw split at codes_only, clock)

parse_weekly-IsParsed :
    (invalid : IngestError) (rest : Text) (spec : ScheduleSpec)
    → parse_weekly invalid rest ≡ ok spec
    → IsParsed spec
unfolding parse_weekly
parse_weekly-IsParsed invalid rest spec h =
    let ((days_raw, time_raw), cut, done) = >>=-ok (ok_or (split_once b'@' rest) invalid) _ h in
    elim (Bool-cases (all_codes (map day_of (split_from b',' [] days_raw)))) [
      | inl codes_only ↦
          let (t, read, made) =
            >>=-ok (ok_or (parse_time time_raw) invalid) _ (rw codes_only at done) in
          let same : weekly (map day_of (split_from b',' [] days_raw)) t ≡ spec = cc made in
          subst IsParsed same (
            days_read days_raw t codes_only
              (parse_time-ClockTime time_raw t (ok_or-some _ invalid t read)))
      | inr others ↦ absurd (ground (arith, done, others))
    ]

pub parse_schedule_spec-IsParsed :
    (text : String) (spec : ScheduleSpec) → parse_schedule_spec text ≡ ok spec → IsParsed spec
unfolding parse_schedule_spec parse_kind
parse_schedule_spec-IsParsed text spec h =
    let invalid = invalid_schedule_spec text in
    let ((kind, rest), cut, done) = >>=-ok (ok_or (split_once b'@' (codes text)) invalid) _ h in
    elim (Bool-cases (kind == codes "daily")) [
      | inl d ↦ parse_daily-IsParsed invalid rest spec (rw d at done)
      | inr not_daily ↦ elim (Bool-cases (kind == codes "hourly")) [
        | inl e ↦ parse_hourly-IsParsed invalid rest spec (rw (not_daily, e) at done)
        | inr not_hourly ↦ elim (Bool-cases (kind == codes "weekly")) [
          | inl w ↦ parse_weekly-IsParsed invalid rest spec (rw (not_daily, not_hourly, w) at done)
          | inr other ↦ absurd (ground (arith, done, not_daily, not_hourly, other))
        ]
      ]
    ]
