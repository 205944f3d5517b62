-- ===== src/Examples/Schedules.antt =====
-- Schedules at concrete inputs.
use rustcopy.Base.{
  ◌+◌, ◌-◌, ◌*◌, ◌≡◌, refl, ap, true, none, some, All, [], ◌∷◌, ok, arith, nat_eq, list_eq,
  string_eq,
}
use rustcopy.Text.{trim}
use rustcopy.Strings.{codes, ends_with}
use rustcopy.Safety.{
  standard, expert, allows, required_level, can_prepare_schedules, can_prepare_elevated_schedules,
}
use rustcopy.Config.{no_settings, IngestConfig}
use rustcopy.JobEditor.Draft.{draft_from}
use rustcopy.JobEditor.Proposal.{read_drafts}
use rustcopy.Schedule.Spec.{
  ScheduleSpec, weekly, parse_schedule_spec, parse_kind, parse_daily, parse_weekly, parse_time,
  split_once, split_from, parse_u32, digits_value, day_of,
}
use rustcopy.Schedule.Start.{Moment, TimeReader, ReadsTimes, first_start, minute_ns}
use rustcopy.Schedule.Earliest.{Earliest, first_start-Earliest}
use rustcopy.Schedule.Stripping.{strip_schedule_flags}
use rustcopy.Schedule.Requests.{
  Outside, install_arguments, validate_task_name, is_task_name, is_absolute_windows_path,
  check_all_scheduled, check_scheduled,
}
use rustcopy.Schedule.Elevated.{
  elevated_install_arguments, every_job, check_path, check_elevated, check_all_elevated,
}
use rustcopy.Schedule.Unattended.{IsUnattended}
use rustcopy.Schedule.Installed.{
  IsRequest, OnlyCopies, install_arguments_lem, elevated_install_arguments_lem,
}

-- Reads a time of five characters.
abbrev read_clock : TimeReader
read_clock (a ∷ b ∷ c ∷ d ∷ e ∷ []) =
    some ((((a - b'0') * 10 + (b - b'0')) * 60 + ((d - b'0') * 10 + (e - b'0'))) * minute_ns)
read_clock _ = none

read_clock-ReadsTimes : ReadsTimes read_clock
read_clock-ReadsTimes h m hb mb = ap (λ t. some (t * minute_ns)) (omega arith)

-- Tuesday at nine.
abbrev tuesday : Moment
tuesday = record { day = 1; tick = 540 * minute_ns }

abbrev spec : ScheduleSpec
spec = weekly (codes "MON" ∷ codes "FRI" ∷ []) (codes "08:30")

spec-parsed : parse_schedule_spec "weekly@mon, FRI@8:30" ≡ ok spec
unfolding parse_schedule_spec parse_kind parse_weekly parse_time split_once split_from parse_u32
    digits_value day_of nat_eq trim list_eq
spec-parsed = refl

first_start_example : Earliest spec tuesday (first_start read_clock spec tuesday)
first_start_example =
    first_start-Earliest read_clock "weekly@mon, FRI@8:30" spec tuesday read_clock-ReadsTimes
      spec-parsed (omega arith)

-- A file whose only job copies between full paths.
abbrev copying : IngestConfig
copying = record {
  defaults = record no_settings { name = some "foto"; source = some "C:/a"; dest = some "D:/b" };
  jobs = none;
}

abbrev outside : Outside
outside = record { is_alphanumeric = λ c. true; loaded = ok copying; absolute = ok "C:/r.toml" }

install_arguments_ok :
    install_arguments outside standard "daily@22:30" "Sera"
    ≡ ok (
        "--config" ∷ "C:/r.toml" ∷ "--install-schedule" ∷ "daily@22:30" ∷ "--schedule-name" ∷ "Sera"
        ∷ [])
unfolding install_arguments parse_schedule_spec parse_kind parse_daily parse_time split_once
    parse_u32 digits_value nat_eq list_eq allows required_level validate_task_name is_task_name
    ends_with is_absolute_windows_path check_all_scheduled check_scheduled read_drafts draft_from
install_arguments_ok = refl

elevated_ok :
    elevated_install_arguments outside expert "daily@22:30" "Sera"
    ≡ ok (
        "--config" ∷ "C:/r.toml" ∷ "--install-schedule" ∷ "daily@22:30" ∷ "--schedule-name" ∷ "Sera"
        ∷ "--schedule-elevated" ∷ [])
unfolding elevated_install_arguments parse_schedule_spec parse_kind parse_daily parse_time
    split_once parse_u32 digits_value nat_eq list_eq allows required_level validate_task_name
    is_task_name ends_with is_absolute_windows_path check_all_elevated check_elevated every_job
    check_path
elevated_ok = refl

full-path : is_absolute_windows_path "C:/r.toml" ≡ true
unfolding is_absolute_windows_path nat_eq
full-path = refl

install_arguments_example :
    (can_prepare_schedules standard ≡ true)
    × IsRequest outside "daily@22:30" "Sera"
    × All IsUnattended (read_drafts copying)
    × (strip_schedule_flags (
          "--config" ∷ "C:/r.toml" ∷ "--install-schedule" ∷ "daily@22:30" ∷ "--schedule-name"
          ∷ "Sera" ∷ [])
        ≡ "--config" ∷ "C:/r.toml" ∷ [])
install_arguments_example =
    install_arguments_lem outside standard "daily@22:30" "Sera" "C:/r.toml" copying
      ("--config" ∷ "C:/r.toml" ∷ "--install-schedule" ∷ "daily@22:30" ∷ "--schedule-name" ∷ "Sera"
        ∷ [])
      refl refl full-path install_arguments_ok

elevated_install_arguments_example :
    (can_prepare_elevated_schedules expert ≡ true)
    × IsRequest outside "daily@22:30" "Sera"
    × All (λ job. OnlyCopies job.1) (every_job copying)
elevated_install_arguments_example =
    elevated_install_arguments_lem outside expert "daily@22:30" "Sera" copying
      ("--config" ∷ "C:/r.toml" ∷ "--install-schedule" ∷ "daily@22:30" ∷ "--schedule-name" ∷ "Sera"
        ∷ "--schedule-elevated" ∷ [])
      refl elevated_ok
