-- ===== src/Schedule/Elevated.antt =====
-- Schedules with administrator rights: `validate_elevation_text` (behind the reading of the TOML
-- text), `elevated_install_arguments` and `elevated_removal_arguments` of
-- crates/rustcopy-core/src/schedule.rs.
use rustcopy.Base.{
  ℕ, ◌+◌, String, false, not, ◌||◌, Option, none, some, is_some, unwrap_or, List, [], ◌∷◌, Result,
  ok, err, ◌>>=◌, ◌>>◌,
}
use rustcopy.Errors.{IngestError, schedule}
use rustcopy.Strings.{append}
use rustcopy.Safety.{SafetyLevel, expert, can_prepare_elevated_schedules}
use rustcopy.Config.{JobConfig, merged_over, IngestConfig}
use rustcopy.JobEditor.{refuse_if}
use rustcopy.JobEditor.Proposal.{label_of}
use rustcopy.Schedule.Spec.{parse_schedule_spec}
use rustcopy.Schedule.Requests.{
  Outside, validate_task_name, is_absolute_windows_path, level_refusal,
}

-- Every job with the label it goes by and its merged settings.
abbrev pub merged_from : JobConfig → ℕ → List JobConfig → List (String × JobConfig)
merged_from defaults i [] = []
merged_from defaults i (job ∷ jobs) =
    (label_of job i, merged_over job defaults) ∷ merged_from defaults (i + 1) jobs

unfoldable pub every_job : IngestConfig → List (String × JobConfig)
every_job config = elim (unwrap_or config.jobs []) [
  | [] ↦ ("job1", config.defaults) ∷ []
  | job ∷ jobs ↦ merged_from config.defaults 0 (job ∷ jobs)
]

abbrev pub cannot_elevate : String → String → IngestError
cannot_elevate job why = schedule (
    append "Il job «" (
      append job (
        append "» " (
          append why
            ": una pianificazione elevata gira con diritti da amministratore e può soltanto copiare."))))

unfoldable pub check_path : String → Option String → Result IngestError (Unit {0})
check_path job none = err (cannot_elevate job "non ha un'origine e una destinazione")
check_path job (some path) =
    refuse_if (not (is_absolute_windows_path path))
      (cannot_elevate job (append "usa il percorso relativo «" (append path "»")))

unfoldable pub check_elevated : String × JobConfig → Result IngestError (Unit {0})
check_elevated (label, job) =
    refuse_if (unwrap_or job.mirror false) (cannot_elevate label "fa un mirror")
    >> refuse_if (is_some job.keep_generations) (cannot_elevate label "elimina vecchie generazioni")
    >> refuse_if (is_some job.pre_command || is_some job.post_command)
        (cannot_elevate label "esegue un comando prima o dopo la copia")
    >> refuse_if (is_some job.report_path || is_some job.log_path || is_some job.html_report_path)
        (cannot_elevate label "sceglie dove scrivere il report o il registro")
    >> check_path label job.source
    >> check_path label job.dest

unfoldable pub check_all_elevated : List (String × JobConfig) → Result IngestError (Unit {0})
check_all_elevated [] = ok tt
check_all_elevated (job ∷ jobs) = check_elevated job >> check_all_elevated jobs

-- `validate_for_elevation`
abbrev pub validate_for_elevation : Outside → Result IngestError (Unit {0})
validate_for_elevation outside = outside.loaded >>= λ config. check_all_elevated (every_job config)

unfoldable pub elevated_install_arguments :
    Outside → SafetyLevel → String → String → Result IngestError (List String)
elevated_install_arguments outside level spec task =
    refuse_if (not (can_prepare_elevated_schedules level)) (
      level_refusal level "» non permette una pianificazione con privilegi elevati: serve «" expert)
    >> (parse_schedule_spec spec >>= λ _.
        validate_task_name outside.is_alphanumeric task
        >> (validate_for_elevation outside
            >> (outside.absolute >>= λ path. ok (
                "--config" ∷ path ∷ "--install-schedule" ∷ spec ∷ "--schedule-name" ∷ task
                ∷ "--schedule-elevated" ∷ []))))

unfoldable pub elevated_removal_arguments :
    Outside → SafetyLevel → String → Result IngestError (List String)
elevated_removal_arguments outside level task =
    refuse_if (not (can_prepare_elevated_schedules level))
      (level_refusal level "» non permette di togliere una pianificazione elevata: serve «" expert)
    >> (validate_task_name outside.is_alphanumeric task
        >> ok ("--uninstall-schedule" ∷ task ∷ "--schedule-elevated" ∷ []))
