-- ===== src/Schedule/Unattended.antt =====
-- What an accepted request for a schedule of schedule.rs starts unattended.
use rustcopy.Base.{
  ℕ, ◌≡◌, refl, ◌∙◌, sym, ap, String, true, false, none, List, [], ◌∷◌, ◌==◌, string_eq, nat_eq, ok,
  >>=-ok, arith, Bool-cases, inl, inr, eq_of_test, All,
}
use rustcopy.Strings.{codes, starts_with}
use rustcopy.JobEditor.Draft.{JobDraft}
use rustcopy.Schedule.Stripping.{
  schedule_only_flags, assigns, takes_value, is_schedule_only, strip_from,
}
use rustcopy.Schedule.Requests.{
  is_absolute_text, is_absolute_windows_path, check_scheduled, check_all_scheduled,
}

not_dash : (p t : List ℕ) → is_absolute_text t ≡ true → starts_with (b'-' ∷ p) t ≡ false
unfolding nat_eq
not_dash p [] h = refl
not_dash p (c ∷ []) h = cc
not_dash p (c ∷ d ∷ []) h = ground (arith, h)
not_dash p (c ∷ d ∷ e ∷ t) h = ground (arith, h)

other_than :
    (path flag : String)
    → is_absolute_windows_path path ≡ true
    → is_absolute_windows_path flag ≡ false
    → (path == flag) ≡ false
other_than path flag h k = elim (Bool-cases (path == flag)) [
  | inl same ↦
      let wrong : true ≡ false =
        sym h ∙ ap is_absolute_windows_path (eq_of_test path flag same) ∙ k in
      cc wrong
  | inr differs ↦ differs
]

flag_relative :
    (is_absolute_windows_path "--schedule-elevated" ≡ false)
    × (is_absolute_windows_path "--install-schedule" ≡ false)
    × (is_absolute_windows_path "--schedule-name" ≡ false)
    × (is_absolute_windows_path "--uninstall-schedule" ≡ false)
unfolding is_absolute_windows_path nat_eq
flag_relative = (refl, refl, refl, refl)

assigns_nothing :
    (path : String)
    → is_absolute_windows_path path ≡ true
    → assigns schedule_only_flags path ≡ false
unfolding is_absolute_windows_path
assigns_nothing path h =
    rw (not_dash _ (codes path) h, not_dash _ (codes path) h, not_dash _ (codes path) h) refl

-- A full path is no flag of a schedule.
path-kept : (path : String) → is_absolute_windows_path path ≡ true → is_schedule_only path ≡ false
path-kept path h = ground (
  arith,
  assigns_nothing path h,
  other_than path "--schedule-elevated" h flag_relative.0,
  other_than path "--install-schedule" h flag_relative.1,
  other_than path "--schedule-name" h flag_relative.2,
  other_than path "--uninstall-schedule" h flag_relative.3,
)

path-takes_nothing :
    (path : String) → is_absolute_windows_path path ≡ true → takes_value path ≡ false
path-takes_nothing path h = ground (arith, path-kept path h)

strip-kept :
    (arg : String) (args : List String)
    → is_schedule_only arg ≡ false
    → takes_value arg ≡ false
    → strip_from false (arg ∷ args) ≡ arg ∷ strip_from false args
unfolding strip_from
strip-kept arg args h k = rw (h, k) refl

strip-flag :
    (flag value : String) (args : List String)
    → takes_value flag ≡ true
    → is_schedule_only flag ≡ true
    → strip_from false (flag ∷ value ∷ args) ≡ strip_from false args
unfolding strip_from
strip-flag flag value args h k = rw (h, k) refl

pub strip-switch :
    (switch : String) (args : List String)
    → takes_value switch ≡ false
    → is_schedule_only switch ≡ true
    → strip_from false (switch ∷ args) ≡ strip_from false args
unfolding strip_from
strip-switch switch args h k = rw (h, k) refl

pub flags_known :
    (is_schedule_only "--config" ≡ false)
    × (takes_value "--config" ≡ false)
    × (takes_value "--install-schedule" ≡ true)
    × (is_schedule_only "--install-schedule" ≡ true)
    × (takes_value "--schedule-name" ≡ true)
    × (is_schedule_only "--schedule-name" ≡ true)
    × (takes_value "--schedule-elevated" ≡ false)
    × (is_schedule_only "--schedule-elevated" ≡ true)
unfolding string_eq nat_eq
flags_known = (refl, refl, refl, refl, refl, refl, refl, refl)

-- What runs on a timer of `--config PATH` and a schedule's flags.
pub strip_config :
    (path spec task : String) (rest : List String)
    → is_absolute_windows_path path ≡ true
    → strip_from false
        ("--config" ∷ path ∷ "--install-schedule" ∷ spec ∷ "--schedule-name" ∷ task ∷ rest)
      ≡ "--config" ∷ path ∷ strip_from false rest
strip_config path spec task rest h =
    let f = flags_known in
    strip-kept "--config" _ f.0 f.1
    ∙ ap (λ args. "--config" ∷ args)
        (strip-kept path _ (path-kept path h) (path-takes_nothing path h)
          ∙ ap (λ args. path ∷ args)
              (strip-flag "--install-schedule" spec _ f.2 f.3
                ∙ strip-flag "--schedule-name" task rest f.4 f.5))

-- A job that may start with nobody in front of it.
pub record IsUnattended (draft : JobDraft) : Type 0 where
  pub mirror : draft.mirror ≡ false
  pub keep_generations : draft.keep_generations ≡ none
  pub source : is_absolute_windows_path draft.source ≡ true
  pub dest : is_absolute_windows_path draft.dest ≡ true

check_scheduled-IsUnattended :
    (draft : JobDraft) → check_scheduled draft ≡ ok tt → IsUnattended draft
unfolding check_scheduled
check_scheduled-IsUnattended draft h = record {
  mirror = ground (arith, h);
  keep_generations = ground (arith, h);
  source = ground (arith, h);
  dest = ground (arith, h);
}

pub check_all_scheduled-All :
    (drafts : List JobDraft) → check_all_scheduled drafts ≡ ok tt → All IsUnattended drafts
unfolding check_all_scheduled
check_all_scheduled-All [] h = tt
check_all_scheduled-All (draft ∷ drafts) h =
    let (_, checked, rest) = >>=-ok (check_scheduled draft) _ h in
    (check_scheduled-IsUnattended draft checked, check_all_scheduled-All drafts rest)
