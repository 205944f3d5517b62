-- ===== src/Checkpoint.antt =====
-- Resuming an interrupted run: crates/rustcopy-core/src/checkpoint.rs, with the fields of `Args`
-- (cli.rs) and of `ConfigurationReport` (report.rs) that it reads or must leave alone.
pub mod Resume
use rustcopy.Base.{
  or_else, ℕ, min, String, Bool, true, false, ◌||◌, Option, none, some, List, [], ◌∷◌, ◌++◌,
  contains, string_eq, Eq, if◌then◌else◌,
}
use rustcopy.Generations.{BackupType}

pub data HashAlgorithm : Type 0 where
  sha256 blake3 xxh3 : HashAlgorithm

pub HashAlgorithm-discrete : Discrete HashAlgorithm
HashAlgorithm-discrete = hlevel

instance unfoldable pub hash_algorithm_eq : Eq HashAlgorithm
unfolding HashAlgorithm-discrete
hash_algorithm_eq = record { dec = HashAlgorithm-discrete }

pub record Args : Type 0 where
  pub source : Option String
  pub dest : Option String
  pub pattern : String
  pub threads : ℕ
  pub retries : ℕ
  pub retry_wait_seconds : ℕ
  pub verify_integrity : Bool
  pub compare_baseline : Bool
  pub hash_algo : HashAlgorithm
  pub backup_type : Option BackupType
  pub min_age_days : Option ℕ
  pub max_age_days : Option ℕ
  pub bandwidth_limit_mbps : Option ℕ
  pub exclude_files : List String
  pub exclude_dirs : List String
  pub dry_run : Bool
  pub fast_verify : Bool
  pub exclude_junctions : Bool
  pub vss_snapshot : Bool
  pub ignore_transient_missing : Bool
  pub no_prescan : Bool
  pub long_paths : Bool
  pub preserve_timestamps : Bool
  pub preserve_acl : Bool
  pub refuse_dest_links : Bool
  pub mirror : Bool
  pub keep_generations : Option ℕ
  pub pre_command : Option String
  pub post_command : Option String

pub record ConfigurationReport : Type 0 where
  pub threads : ℕ
  pub retries : ℕ
  pub retry_wait_seconds : ℕ
  pub pattern : String
  pub verify_integrity : Bool
  pub compare_baseline : Bool
  pub dry_run : Bool
  pub mirror : Bool
  pub backup_type : Option BackupType
  pub exclude_files : List String
  pub exclude_dirs : List String
  pub min_age_days : Option ℕ
  pub max_age_days : Option ℕ
  pub bandwidth_limit_mbps : Option ℕ
  pub hash_algo : HashAlgorithm
  pub fast_verify : Bool
  pub exclude_junctions : Bool
  pub vss_snapshot : Bool

abbrev pub configuration_of : Args → ConfigurationReport
configuration_of args = record {
  threads = args.threads;
  retries = args.retries;
  retry_wait_seconds = args.retry_wait_seconds;
  pattern = args.pattern;
  verify_integrity = args.verify_integrity;
  compare_baseline = args.compare_baseline;
  dry_run = args.dry_run;
  mirror = args.mirror;
  backup_type = args.backup_type;
  exclude_files = args.exclude_files;
  exclude_dirs = args.exclude_dirs;
  min_age_days = args.min_age_days;
  max_age_days = args.max_age_days;
  bandwidth_limit_mbps = args.bandwidth_limit_mbps;
  hash_algo = args.hash_algo;
  fast_verify = args.fast_verify;
  exclude_junctions = args.exclude_junctions;
  vss_snapshot = args.vss_snapshot;
}

pub record ResumeExtras : Type 0 where
  pub ignore_transient_missing : Bool
  pub no_prescan : Bool
  pub long_paths : Bool
  pub preserve_timestamps : Bool
  pub preserve_acl : Bool
  pub refuse_dest_links : Bool

abbrev pub extras_of : Args → ResumeExtras
extras_of args = record {
  ignore_transient_missing = args.ignore_transient_missing;
  no_prescan = args.no_prescan;
  long_paths = args.long_paths;
  preserve_timestamps = args.preserve_timestamps;
  preserve_acl = args.preserve_acl;
  refuse_dest_links = args.refuse_dest_links;
}

-- A `Checkpoint`, less the fields that a resume does not read: version, time and reason.
pub record Checkpoint : Type 0 where
  pub source : String
  pub dest : String
  pub configuration : ConfigurationReport
  pub extras : ResumeExtras

abbrev pub or_empty : Option String → String
or_empty none = ""
or_empty (some s) = s

-- `Args::source` and `Args::dest`, which stop the program when there is none (not modelled: an
-- empty text stands for it).
abbrev pub new_checkpoint : Args → Checkpoint
new_checkpoint args = record {
  source = or_empty args.source;
  dest = or_empty args.dest;
  configuration = configuration_of args;
  extras = extras_of args;
}

abbrev pub lower_limit : Option ℕ → Option ℕ → Option ℕ
lower_limit (some saved) (some typed) = some (min saved typed)
lower_limit saved typed = or_else saved typed

unfoldable pub extend_unique : List String → List String → List String
extend_unique into [] = into
extend_unique into (entry ∷ from) =
    extend_unique (if contains into entry then into else into ++ (entry ∷ [])) from

unfoldable pub apply_configuration : Args → ConfigurationReport → ResumeExtras → Args
apply_configuration args saved extras = record {
  source = args.source;
  dest = args.dest;
  pattern = saved.pattern;
  threads = saved.threads;
  retries = saved.retries;
  retry_wait_seconds = saved.retry_wait_seconds;
  verify_integrity = saved.verify_integrity;
  compare_baseline = args.compare_baseline;
  hash_algo = saved.hash_algo;
  backup_type = or_else saved.backup_type args.backup_type;
  min_age_days = or_else saved.min_age_days args.min_age_days;
  max_age_days = or_else saved.max_age_days args.max_age_days;
  bandwidth_limit_mbps = lower_limit saved.bandwidth_limit_mbps args.bandwidth_limit_mbps;
  exclude_files = extend_unique args.exclude_files saved.exclude_files;
  exclude_dirs = extend_unique args.exclude_dirs saved.exclude_dirs;
  dry_run = args.dry_run || saved.dry_run;
  fast_verify = args.fast_verify || saved.fast_verify;
  exclude_junctions = args.exclude_junctions || saved.exclude_junctions;
  vss_snapshot = args.vss_snapshot || saved.vss_snapshot;
  ignore_transient_missing = args.ignore_transient_missing || extras.ignore_transient_missing;
  no_prescan = args.no_prescan || extras.no_prescan;
  long_paths = args.long_paths || extras.long_paths;
  preserve_timestamps = args.preserve_timestamps || extras.preserve_timestamps;
  preserve_acl = args.preserve_acl || extras.preserve_acl;
  refuse_dest_links = args.refuse_dest_links || extras.refuse_dest_links;
  mirror = args.mirror;
  keep_generations = args.keep_generations;
  pre_command = args.pre_command;
  post_command = args.post_command;
}

-- Reading and parsing the file are not here: this starts from the checkpoint that they give.
unfoldable pub build_resume_args : Args → Checkpoint → Args
build_resume_args original checkpoint =
    apply_configuration
      (record original { source = some checkpoint.source; dest = some checkpoint.dest })
      checkpoint.configuration checkpoint.extras
