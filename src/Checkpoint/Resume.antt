-- ===== src/Checkpoint/Resume.antt =====
-- What a resume restores, and what it never does.
use rustcopy.Base.{
  or_else, ℕ, String, ◌≡◌, ◌∙◌, ◌≤◌, refl, ap, Bool, true, ◌||◌, Option, none, some, List, [], ◌∷◌,
  ◌++◌, contains, ◌==◌, string_eq, Bool-cases, inl, inr, arith, eq_self, eq_of_test,
}
use rustcopy.Checkpoint.{
  Args, ConfigurationReport, ResumeExtras, Checkpoint, new_checkpoint, extend_unique,
  apply_configuration, build_resume_args, lower_limit,
}

contains-snoc :
    (xs : List String) (x y : String) → contains (xs ++ (x ∷ [])) y ≡ (contains xs y || (y == x))
contains-snoc [] x y = ground arith
contains-snoc (z ∷ xs) x y = ground (arith, contains-snoc xs x y)

seen :
    (xs : List String) (x y : String)
    → contains xs x ≡ true
    → (y == x) ≡ true
    → contains xs y ≡ true
seen xs x y h e = ap (contains xs) (eq_of_test y x e) ∙ h

-- The merged list has what either list has.
contains-extend_unique :
    (into from : List String) (y : String)
    → contains (extend_unique into from) y ≡ (contains into y || contains from y)
unfolding extend_unique
contains-extend_unique into [] y = ground arith
contains-extend_unique into (x ∷ from) y = elim (Bool-cases (contains into x)) [
  | inl there ↦
      rw there (contains-extend_unique into from y ∙ ground (arith, there, seen into x y there))
  | inr new ↦ rw new (
      contains-extend_unique (into ++ (x ∷ [])) from y ∙ rw (contains-snoc into x y) (ground arith))
]

-- What is there already is not added.
extend_unique-all_there :
    (into from : List String)
    → ((y : String) → contains from y ≡ true → contains into y ≡ true)
    → extend_unique into from ≡ into
unfolding extend_unique
extend_unique-all_there into [] h = refl
extend_unique-all_there into (x ∷ from) h =
    rw (h x (ground (arith, eq_self x)))
      (extend_unique-all_there into from (λ y k. h y (ground (arith, k))))

extend_unique_twice :
    (into from : List String)
    → extend_unique (extend_unique into from) from ≡ extend_unique into from
extend_unique_twice into from =
    extend_unique-all_there (extend_unique into from) from
      (λ y k. contains-extend_unique into from y ∙ ground (arith, k))

or_else_twice {ℓ} : {A : Type ℓ} (a b : Option A) → or_else a (or_else a b) ≡ or_else a b
or_else_twice none b = refl
or_else_twice (some a) b = refl

lower_limit_twice : (a b : Option ℕ) → lower_limit a (lower_limit a b) ≡ lower_limit a b
lower_limit_twice none none = refl
lower_limit_twice none (some b) = refl
lower_limit_twice (some a) none = ap (λ n. some n) (ground arith)
lower_limit_twice (some a) (some b) = ap (λ n. some n) (ground arith)

or_twice : (a b : Bool) → ((a || b) || b) ≡ (a || b)
or_twice a b = ground arith

apply_configuration_twice :
    (args : Args) (saved : ConfigurationReport) (extras : ResumeExtras)
    → apply_configuration (apply_configuration args saved extras) saved extras
      ≡ apply_configuration args saved extras
unfolding apply_configuration
apply_configuration_twice args saved extras = λ i. record {
  source = args.source;
  dest = args.dest;
  pattern = saved.pattern;
  threads = saved.threads;
  retries = saved.retries;
  retry_wait_seconds = saved.retry_wait_seconds;
  verify_integrity = saved.verify_integrity;
  compare_baseline = args.compare_baseline;
  hash_algo = saved.hash_algo;
  backup_type = or_else_twice saved.backup_type args.backup_type i;
  min_age_days = or_else_twice saved.min_age_days args.min_age_days i;
  max_age_days = or_else_twice saved.max_age_days args.max_age_days i;
  bandwidth_limit_mbps = lower_limit_twice saved.bandwidth_limit_mbps args.bandwidth_limit_mbps i;
  exclude_files = extend_unique_twice args.exclude_files saved.exclude_files i;
  exclude_dirs = extend_unique_twice args.exclude_dirs saved.exclude_dirs i;
  dry_run = or_twice args.dry_run saved.dry_run i;
  fast_verify = or_twice args.fast_verify saved.fast_verify i;
  exclude_junctions = or_twice args.exclude_junctions saved.exclude_junctions i;
  vss_snapshot = or_twice args.vss_snapshot saved.vss_snapshot i;
  ignore_transient_missing =
      or_twice args.ignore_transient_missing extras.ignore_transient_missing i;
  no_prescan = or_twice args.no_prescan extras.no_prescan i;
  long_paths = or_twice args.long_paths extras.long_paths i;
  preserve_timestamps = or_twice args.preserve_timestamps extras.preserve_timestamps i;
  preserve_acl = or_twice args.preserve_acl extras.preserve_acl i;
  refuse_dest_links = or_twice args.refuse_dest_links extras.refuse_dest_links i;
  mirror = args.mirror;
  keep_generations = args.keep_generations;
  pre_command = args.pre_command;
  post_command = args.post_command;
}

-- Resuming a resumed command line from the same checkpoint changes nothing more.
pub build_resume_args_twice :
    (original : Args) (checkpoint : Checkpoint)
    → build_resume_args (build_resume_args original checkpoint) checkpoint
      ≡ build_resume_args original checkpoint
unfolding build_resume_args apply_configuration
build_resume_args_twice original checkpoint =
    apply_configuration_twice
      (record original { source = some checkpoint.source; dest = some checkpoint.dest })
      checkpoint.configuration checkpoint.extras

-- A limit that is at least as strict.
abbrev pub AsStrict : Option ℕ → Option ℕ → Type 0
AsStrict limit none = Unit
AsStrict none (some b) = ⊥
AsStrict (some a) (some b) = a ≤ b

lower_limit-AsStrict :
    (a b : Option ℕ) → AsStrict (lower_limit a b) a × AsStrict (lower_limit a b) b
lower_limit-AsStrict none none = (tt, tt)
lower_limit-AsStrict none (some b) = (tt, omega arith)
lower_limit-AsStrict (some a) none = (omega arith, tt)
lower_limit-AsStrict (some a) (some b) = (ground arith, ground arith)

-- A resumed run leaves out exactly the files and the folders that the interrupted run or the new
-- command line excludes, its bandwidth is limited as strictly as both ask, it is a simulation when
-- either was, it refuses links when either did, and whether it mirrors, prunes or runs commands is
-- for the new command line alone.
pub resume_restricts :
    (original interrupted : Args)
    → ((y : String)
        → contains (build_resume_args original (new_checkpoint interrupted)).exclude_files y
          ≡ (contains original.exclude_files y || contains interrupted.exclude_files y))
      × ((y : String)
          → contains (build_resume_args original (new_checkpoint interrupted)).exclude_dirs y
            ≡ (contains original.exclude_dirs y || contains interrupted.exclude_dirs y))
      × AsStrict
          (build_resume_args original (new_checkpoint interrupted)).bandwidth_limit_mbps
          interrupted.bandwidth_limit_mbps
      × AsStrict
          (build_resume_args original (new_checkpoint interrupted)).bandwidth_limit_mbps
          original.bandwidth_limit_mbps
      × ((build_resume_args original (new_checkpoint interrupted)).dry_run
          ≡ (original.dry_run || interrupted.dry_run))
      × ((build_resume_args original (new_checkpoint interrupted)).refuse_dest_links
          ≡ (original.refuse_dest_links || interrupted.refuse_dest_links))
      × ((build_resume_args original (new_checkpoint interrupted)).mirror ≡ original.mirror)
      × ((build_resume_args original (new_checkpoint interrupted)).keep_generations
          ≡ original.keep_generations)
      × ((build_resume_args original (new_checkpoint interrupted)).pre_command
          ≡ original.pre_command)
      × ((build_resume_args original (new_checkpoint interrupted)).post_command
          ≡ original.post_command)
unfolding build_resume_args apply_configuration
resume_restricts original interrupted = (
  contains-extend_unique original.exclude_files interrupted.exclude_files,
  contains-extend_unique original.exclude_dirs interrupted.exclude_dirs,
  (lower_limit-AsStrict interrupted.bandwidth_limit_mbps original.bandwidth_limit_mbps).0,
  (lower_limit-AsStrict interrupted.bandwidth_limit_mbps original.bandwidth_limit_mbps).1,
  refl,
  refl,
  refl,
  refl,
  refl,
  refl,
)
