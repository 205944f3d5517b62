-- ===== src/Schedule/Spec.antt =====
-- `--install-schedule`: `parse_schedule_spec` and `parse_time` of
-- crates/rustcopy-core/src/schedule.rs. Texts inside a specification are lists of code points.
use rustcopy.Base.{
  ℕ, ◌+◌, ◌-◌, ◌*◌, ◌/◌, ◌%◌, String, Bool, true, false, not, ◌&&◌, ◌||◌, Option, none, some, List,
  [], ◌∷◌, ◌++◌, map, ◌==◌, nat_eq, list_eq, contains, ltb, leb, if◌then◌else◌, Result, ok, err,
  ◌>>=◌,
}
use rustcopy.Errors.{IngestError, invalid_schedule_spec}
use rustcopy.Strings.{append, decimal, codes}
use rustcopy.Text.{Text, trim, is_empty}

pub data ScheduleSpec : Type 0 where
  daily : Text → ScheduleSpec
  hourly : ℕ → ScheduleSpec
  weekly : List Text → Text → ScheduleSpec

abbrev pub weekday_codes : List Text
weekday_codes =
    codes "MON"
    ∷ codes "TUE"
    ∷ codes "WED"
    ∷ codes "THU"
    ∷ codes "FRI"
    ∷ codes "SAT"
    ∷ codes "SUN"
    ∷ []

abbrev pub max_hourly_interval : ℕ
max_hourly_interval = 23

-- `str::split_once(c)`
unfoldable pub split_once : ℕ → Text → Option (Text × Text)
split_once c [] = none
split_once c (d ∷ t) = elim (d == c) [
  | true ↦ some ([], t)
  | false ↦ elim (split_once c t) [ none ↦ none | some (before, after) ↦ some (d ∷ before, after) ]
]

-- `str::split(c)`: the pieces of a text, the first with what stands before it.
unfoldable pub split_from : ℕ → Text → Text → List Text
split_from c piece [] = piece ∷ []
split_from c piece (d ∷ t) = elim (d == c) [
  | true ↦ piece ∷ split_from c [] t
  | false ↦ split_from c (piece ++ (d ∷ [])) t
]

-- The number that decimal digits stand for, after `n`.
unfoldable pub digits_value : ℕ → Text → Option ℕ
digits_value n [] = some n
digits_value n (c ∷ t) = elim (leb b'0' c && leb c b'9') [
  | true ↦ digits_value (n * 10 + (c - b'0')) t
  | false ↦ none
]

abbrev pub without_plus : Text → Text
without_plus [] = []
without_plus (c ∷ t) = if c == b'+' then t else c ∷ t

abbrev pub fits_u32 : Option ℕ → Option ℕ
fits_u32 none = none
fits_u32 (some n) = if ltb n 4294967296 then some n else none

-- `str::parse::<u32>()`
unfoldable pub parse_u32 : Text → Option ℕ
parse_u32 t = if is_empty (without_plus t) then none else fits_u32 (digits_value 0 (without_plus t))

abbrev pub two_digits : ℕ → Text
two_digits n = (b'0' + n / 10) ∷ (b'0' + n % 10) ∷ []

-- `format!("{h:02}:{m:02}")`
abbrev pub clock_text : ℕ → ℕ → Text
clock_text h m = two_digits h ++ (b':' ∷ two_digits m)

abbrev pub checked_time : Option ℕ → Option ℕ → Option Text
checked_time (some h) (some m) = if ltb 23 h || ltb 59 m then none else some (clock_text h m)
checked_time _ _ = none

unfoldable pub parse_time : Text → Option Text
parse_time time = elim (split_once b':' time) [
  | none ↦ none
  | some (h_raw, m_raw) ↦ checked_time (parse_u32 h_raw) (parse_u32 m_raw)
]

-- `to_uppercase`, on the characters whose capital is in A-Z; no other becomes a letter of a code.
abbrev pub to_uppercase : ℕ → ℕ
to_uppercase c =
    if leb b'a' c && leb c b'z'
    then c - 32
    else if c == 0x131
    then b'I'
    else if c == 0x17F
    then b'S'
    else c

unfoldable pub day_of : Text → Text
day_of d = map to_uppercase (trim d)

abbrev pub all_codes : List Text → Bool
all_codes [] = true
all_codes (d ∷ days) = contains weekday_codes d && all_codes days

abbrev pub ok_or {ℓ} : {A : Type ℓ} → Option A → IngestError → Result IngestError A
ok_or none e = err e
ok_or (some a) e = ok a

abbrev pub interval_message : ℕ → String
interval_message n = append "hourly@" (
    append (decimal n) (
      append ": the interval must be between 1 and " (
        append (decimal max_hourly_interval) (
          append " hours                      (schtasks.exe rejects anything above " (
            append (decimal max_hourly_interval)
              "). For longer                      gaps use daily@HH:MM.")))))

unfoldable pub parse_daily : IngestError → Text → Result IngestError ScheduleSpec
parse_daily invalid rest = ok_or (parse_time rest) invalid >>= λ time. ok (daily time)

unfoldable pub parse_hourly : IngestError → Text → Result IngestError ScheduleSpec
parse_hourly invalid rest = ok_or (parse_u32 rest) invalid >>= λ n.
    if leb 1 n && leb n max_hourly_interval
    then ok (hourly n)
    else err (invalid_schedule_spec (interval_message n))

unfoldable pub parse_weekly : IngestError → Text → Result IngestError ScheduleSpec
parse_weekly invalid rest = ok_or (split_once b'@' rest) invalid >>= λ (days_raw, time_raw).
    let days = map day_of (split_from b',' [] days_raw) in
    if not (all_codes days)
    then err invalid
    else (ok_or (parse_time time_raw) invalid >>= λ time. ok (weekly days time))

unfoldable pub parse_kind : IngestError → Text → Text → Result IngestError ScheduleSpec
parse_kind invalid kind rest =
    if kind == codes "daily"
    then parse_daily invalid rest
    else if kind == codes "hourly"
    then parse_hourly invalid rest
    else if kind == codes "weekly"
    then parse_weekly invalid rest
    else err invalid

unfoldable pub parse_schedule_spec : String → Result IngestError ScheduleSpec
parse_schedule_spec spec =
    let invalid = invalid_schedule_spec spec in
    ok_or (split_once b'@' (codes spec)) invalid >>= λ (kind, rest). parse_kind invalid kind rest
