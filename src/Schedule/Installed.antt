-- ===== src/Schedule/Installed.antt =====
-- The two requests of schedule.rs that install a schedule, from what they accept to what then runs.
use rustcopy.Base.{
  ℕ, ◌≡◌, refl, ◌∙◌, sym, ap, String, Bool, true, false, not, Option, none, some, unwrap_or, List,
  [], ◌∷◌, ok, >>=-ok, arith, All, subst,
}
use rustcopy.Errors.{IngestError}
use rustcopy.Safety.{SafetyLevel, can_prepare_schedules, can_prepare_elevated_schedules}
use rustcopy.Config.{JobConfig, IngestConfig}
use rustcopy.JobEditor.{refuse_if}
use rustcopy.JobEditor.Proposal.{read_drafts}
use rustcopy.Schedule.Spec.{ScheduleSpec, parse_schedule_spec}
use rustcopy.Schedule.Stripping.{strip_from, strip_schedule_flags}
use rustcopy.Schedule.Requests.{
  Outside, is_task_name, validate_task_name, is_absolute_windows_path, check_all_scheduled,
  install_arguments,
}
use rustcopy.Schedule.Elevated.{
  every_job, check_path, check_elevated, check_all_elevated, validate_for_elevation,
  elevated_install_arguments,
}
use rustcopy.Schedule.Unattended.{IsUnattended, check_all_scheduled-All, strip_config}

refuse_if-ok : (b : Bool) (e : IngestError) → refuse_if (not b) e ≡ ok tt → b ≡ true
refuse_if-ok true e h = refl
refuse_if-ok false e h = cc

named_well :
    (alphanumeric : ℕ → Bool) (task : String)
    → validate_task_name alphanumeric task ≡ ok tt
    → is_task_name alphanumeric task ≡ true
unfolding validate_task_name
named_well alphanumeric task h = ground (arith, h)

nothing_left : strip_from false [] ≡ []
unfolding strip_from
nothing_left = refl

-- What both requests check of the specification and the name.
pub record IsRequest (outside : Outside) (spec task : String) : Type 0 where
  pub parsed : (s : ScheduleSpec) × (parse_schedule_spec spec ≡ ok s)
  pub named : is_task_name outside.is_alphanumeric task ≡ true

-- A request for a schedule that is accepted comes from a level that may prepare schedules, with a
-- specification that parses and a good name; no job of its file mirrors or prunes generations, and
-- every one has full paths; and what then runs on the timer is the file alone, with no flag that
-- installs, names or removes a schedule. (The file has been read, and its path made a full one.)
pub install_arguments_lem :
    (outside : Outside) (level : SafetyLevel) (spec task path : String) (config : IngestConfig)
    (args : List String)
    → outside.loaded ≡ ok config
    → outside.absolute ≡ ok path
    → is_absolute_windows_path path ≡ true
    → install_arguments outside level spec task ≡ ok args
    → (can_prepare_schedules level ≡ true)
      × IsRequest outside spec task
      × All IsUnattended (read_drafts config)
      × (strip_schedule_flags args ≡ "--config" ∷ path ∷ [])
unfolding install_arguments strip_schedule_flags
install_arguments_lem outside level spec task path config args loaded absolute full h =
    let (_, allowed, h₁) = >>=-ok (refuse_if (not (can_prepare_schedules level)) _) _ h in
    let (s, parsed, h₂) = >>=-ok (parse_schedule_spec spec) _ h₁ in
    let (_, named, h₃) = >>=-ok (validate_task_name outside.is_alphanumeric task) _ h₂ in
    let (config', loaded', h₄) = >>=-ok outside.loaded _ h₃ in
    let (_, checked, h₅) = >>=-ok (check_all_scheduled (read_drafts config')) _ h₄ in
    let (path', absolute', h₆) = >>=-ok outside.absolute _ h₅ in
    let same : config' ≡ config = cc (loaded, loaded') in
    let path_same : path' ≡ path = cc (absolute, absolute') in
    let made : ("--config" ∷ path' ∷ "--install-schedule" ∷ spec ∷ "--schedule-name" ∷ task ∷ [])
        ≡ args =
      cc h₆ in
    (
      refuse_if-ok (can_prepare_schedules level) _ allowed,
      record { parsed = (s, parsed); named = named_well outside.is_alphanumeric task named },
      subst (λ c. All IsUnattended (read_drafts c)) same
          (check_all_scheduled-All (read_drafts config') checked),
      ap (strip_from false) (sym made)
          ∙ ap
              (λ p.
                strip_from false
                  ("--config" ∷ p ∷ "--install-schedule" ∷ spec ∷ "--schedule-name" ∷ task ∷ []))
              path_same
          ∙ strip_config path spec task [] full
          ∙ ap (λ rest. "--config" ∷ path ∷ rest) nothing_left,
    )

-- A path is given, and it is a full one.
pub record FullPath (path : Option String) : Type 0 where
  pub text : String
  pub given : path ≡ some text
  pub full : is_absolute_windows_path text ≡ true

-- A job that may run with administrator rights: it copies, and nothing else.
pub record OnlyCopies (job : JobConfig) : Type 0 where
  pub mirror : unwrap_or job.mirror false ≡ false
  pub keep_generations : job.keep_generations ≡ none
  pub pre_command : job.pre_command ≡ none
  pub post_command : job.post_command ≡ none
  pub report_path : job.report_path ≡ none
  pub log_path : job.log_path ≡ none
  pub html_report_path : job.html_report_path ≡ none
  pub source : FullPath job.source
  pub dest : FullPath job.dest

check_path-FullPath :
    (job : String) (path : Option String) → check_path job path ≡ ok tt → FullPath path
unfolding check_path
check_path-FullPath job none h = cc
check_path-FullPath job (some text) h = record {
  text = text;
  given = refl;
  full = ground (arith, h);
}

check_elevated-OnlyCopies :
    (label : String) (job : JobConfig) → check_elevated (label, job) ≡ ok tt → OnlyCopies job
unfolding check_elevated
check_elevated-OnlyCopies label job h =
    let (_, checked, dest) = >>=-ok _ (λ _. check_path label job.dest) h in
    let (_, switches, source) = >>=-ok _ (λ _. check_path label job.source) checked in
    record {
      mirror = ground (arith, switches);
      keep_generations = ground (arith, switches);
      pre_command = ground (arith, switches);
      post_command = ground (arith, switches);
      report_path = ground (arith, switches);
      log_path = ground (arith, switches);
      html_report_path = ground (arith, switches);
      source = check_path-FullPath label job.source source;
      dest = check_path-FullPath label job.dest dest;
    }

check_all_elevated-All :
    (jobs : List (String × JobConfig))
    → check_all_elevated jobs ≡ ok tt
    → All (λ job. OnlyCopies job.1) jobs
unfolding check_all_elevated
check_all_elevated-All [] h = tt
check_all_elevated-All ((label, job) ∷ jobs) h =
    let (_, checked, rest) = >>=-ok (check_elevated (label, job)) _ h in
    (check_elevated-OnlyCopies label job checked, check_all_elevated-All jobs rest)

-- A request for a schedule with administrator rights that is accepted comes from a level that may
-- prepare one, with a specification that parses and a good name, and every job of its file, merged
-- over the top-level values, only copies, between full paths: it neither mirrors, prunes, runs a
-- command nor chooses where its reports and log go. (The file has been read.)
pub elevated_install_arguments_lem :
    (outside : Outside) (level : SafetyLevel) (spec task : String) (config : IngestConfig)
    (args : List String)
    → outside.loaded ≡ ok config
    → elevated_install_arguments outside level spec task ≡ ok args
    → (can_prepare_elevated_schedules level ≡ true)
      × IsRequest outside spec task
      × All (λ job. OnlyCopies job.1) (every_job config)
unfolding elevated_install_arguments
elevated_install_arguments_lem outside level spec task config args loaded h =
    let (_, allowed, h₁) = >>=-ok (refuse_if (not (can_prepare_elevated_schedules level)) _) _ h in
    let (s, parsed, h₂) = >>=-ok (parse_schedule_spec spec) _ h₁ in
    let (_, named, h₃) = >>=-ok (validate_task_name outside.is_alphanumeric task) _ h₂ in
    let (_, valid, _) = >>=-ok (validate_for_elevation outside) _ h₃ in
    let (config', loaded', checked) = >>=-ok outside.loaded _ valid in
    let same : config' ≡ config = cc (loaded, loaded') in
    (
      refuse_if-ok (can_prepare_elevated_schedules level) _ allowed,
      record { parsed = (s, parsed); named = named_well outside.is_alphanumeric task named },
      subst (λ c. All (λ job. OnlyCopies job.1) (every_job c)) same
          (check_all_elevated-All (every_job config') checked),
    )
