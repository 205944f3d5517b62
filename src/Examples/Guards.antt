-- ===== src/Examples/Guards.antt =====
-- The guards, the move and the resume at concrete inputs.
use rustcopy.Base.{
  ℕ, ◌<◌, ◌≤◌, String, ◌≡◌, ◌↔◌, ◌⊎◌, refl, true, false, ◌&&◌, ◌||◌, Option, none, some, List, [],
  ◌∷◌, contains, ok, err, nat_eq, string_eq, list_eq,
}
use rustcopy.Errors.{IngestError, insufficient_disk_space}
use rustcopy.DiskSpace.{ensure_enough_free_space}
use rustcopy.DiskSpace.Margin.{IsRequired, ensure_enough_free_space_lem}
use rustcopy.Generations.{RelPath}
use rustcopy.Safety.{
  SafetyLevel, rank, allows, required_level, Stored, Folder, load, set, without_bom, prudent,
  standard, expert, confirmed, not_confirmed, can_move, is_confirmed,
}
use rustcopy.Safety.Levels.{set_lem}
use rustcopy.Moves.{
  Disk, Meta, FileType, MovePlan, VerifiedCopy, PlannedDelete, empty_plan, kept, symlink_metadata,
}
use rustcopy.Moves.Planning.{plan_move}
use rustcopy.Moves.Deleting.{execute_move}
use rustcopy.Moves.Plan.{Verdicts, entries_of, collected, kept_of, bytes_of, plan_move_lem}
use rustcopy.Moves.Execute.{CopiesApart, Kept, execute_move_lem}
use rustcopy.Checkpoint.{Args, sha256, build_resume_args, new_checkpoint}
use rustcopy.Checkpoint.Resume.{AsStrict, resume_restricts}
use rustcopy.DestGuard.{Looks, ensure_no_links, root_dir, normal, entry, not_there}
use rustcopy.DestGuard.Clear.{Clear, ensure_no_links_lem}

abbrev volume : ℕ → Option ℕ
volume _ = some 1000

ensure_enough_free_space_example :
    (required : ℕ) × IsRequired 900 5 required
    × (((ensure_enough_free_space volume (some 0) 900 5 ≡ ok tt) × (required ≤ 1000))
        ⊎ ((ensure_enough_free_space volume (some 0) 900 5
              ≡ err (insufficient_disk_space required 1000))
            × (1000 < required)))
ensure_enough_free_space_example = ensure_enough_free_space_lem volume 0 1000 900 5 refl

abbrev by_rank : Stored
by_rank = record {
  parse_level =
      λ t. elim t [ [] ↦ some prudent | (_ ∷ []) ↦ some standard | (_ ∷ _ ∷ _) ↦ some expert ];
  print_level = λ l. elim l [ prudent ↦ [] | standard ↦ 49 ∷ [] | expert ↦ 49 ∷ 49 ∷ [] ];
}

by_rank-reads :
    (level : SafetyLevel)
    → by_rank.parse_level (without_bom (by_rank.print_level level)) ≡ some level
unfolding without_bom nat_eq
by_rank-reads prudent = refl
by_rank-reads standard = refl
by_rank-reads expert = refl

abbrev new_folder : Folder
new_folder = record { settings = none; log = [] }

set_example :
    (((set by_rank none true new_folder expert not_confirmed).1 ≡ ok expert)
        × (load by_rank (set by_rank none true new_folder expert not_confirmed).0 ≡ expert)
      ⊎ ((e : IngestError) × (set by_rank none true new_folder expert not_confirmed
            ≡ (new_folder, err e))))
    × ((not_confirmed ≡ confirmed)
        ⊎ (rank (load by_rank (set by_rank none true new_folder expert not_confirmed).0)
            ≤ rank (load by_rank new_folder)))
set_example = set_lem by_rank none true new_folder expert not_confirmed by_rank-reads

abbrev a_file : Meta
a_file = record {
  file_type = FileType.file;
  is_reparse_point = false;
  len = 5;
  modified = some 100;
}

abbrev disk : Disk
disk = (("src" ∷ "a" ∷ []), a_file) ∷ (("dst" ∷ "a" ∷ []), a_file) ∷ []

abbrev walk : List String → List (List String)
walk root = ("src" ∷ "a" ∷ []) ∷ []

standard_moves : can_move standard ≡ true
unfolding allows required_level
standard_moves = refl

abbrev one_pair : List (RelPath × RelPath)
one_pair = (("src" ∷ []), ("dst" ∷ [])) ∷ []

plan_move_example :
    (plan : MovePlan) × (verdicts : List (Option PlannedDelete)) × (plan_move disk walk
        (λ _. false)
        standard
        one_pair
        VerifiedCopy.verified
      ≡ ok plan)
    × Verdicts disk (entries_of walk (λ _. false) one_pair) verdicts
    × (plan.delete ≡ collected verdicts)
    × (kept plan ≡ kept_of verdicts)
    × (plan.delete_bytes ≡ bytes_of verdicts)
plan_move_example =
    plan_move_lem disk walk (λ _. false) standard one_pair VerifiedCopy.verified standard_moves

abbrev one_delete : MovePlan
one_delete = record empty_plan {
  delete =
      (record { source = "src" ∷ "a" ∷ []; dest = "dst" ∷ "a" ∷ []; size = 5; modified = 100 })
      ∷ [];
  roots = ("src" ∷ []) ∷ [];
}

one_delete-CopiesApart : CopiesApart one_delete.delete
unfolding string_eq list_eq
one_delete-CopiesApart = ((refl, tt), tt)

the_file : symlink_metadata disk ("src" ∷ "a" ∷ []) ≡ some a_file
unfolding symlink_metadata string_eq list_eq
the_file = refl

execute_move_example :
    Kept
      (execute_move (λ _. none) (λ _ root. root ∷ []) disk standard one_delete confirmed).0
      one_delete.delete
      ("src" ∷ "a" ∷ [])
      a_file
    × (((can_move standard && is_confirmed confirmed) ≡ true)
        ⊎ ((execute_move (λ _. none) (λ _ root. root ∷ []) disk standard one_delete confirmed).0
            ≡ disk))
execute_move_example =
    execute_move_lem (λ _. none) (λ _ root. root ∷ []) disk standard one_delete confirmed
      ("src" ∷ "a" ∷ []) a_file one_delete-CopiesApart the_file refl

abbrev typed : Args
typed = record {
  source = none;
  dest = none;
  pattern = "*";
  threads = 8;
  retries = 1;
  retry_wait_seconds = 5;
  verify_integrity = false;
  compare_baseline = false;
  hash_algo = sha256;
  backup_type = none;
  min_age_days = none;
  max_age_days = none;
  bandwidth_limit_mbps = some 50;
  exclude_files = "*.tmp" ∷ [];
  exclude_dirs = [];
  dry_run = false;
  fast_verify = false;
  exclude_junctions = false;
  vss_snapshot = false;
  ignore_transient_missing = false;
  no_prescan = false;
  long_paths = false;
  preserve_timestamps = false;
  preserve_acl = false;
  refuse_dest_links = false;
  mirror = false;
  keep_generations = none;
  pre_command = none;
  post_command = none;
}

abbrev stopped : Args
stopped = record typed {
  source = some "S";
  dest = some "D";
  bandwidth_limit_mbps = some 10;
  exclude_files = "*.log" ∷ "*.tmp" ∷ [];
  dry_run = true;
  mirror = true;
  keep_generations = some 2;
}

resume_restricts_example :
    ((y : String)
      → contains (build_resume_args typed (new_checkpoint stopped)).exclude_files y
        ≡ (contains typed.exclude_files y || contains stopped.exclude_files y))
    × ((y : String)
        → contains (build_resume_args typed (new_checkpoint stopped)).exclude_dirs y
          ≡ (contains typed.exclude_dirs y || contains stopped.exclude_dirs y))
    × AsStrict
        (build_resume_args typed (new_checkpoint stopped)).bandwidth_limit_mbps
        stopped.bandwidth_limit_mbps
    × AsStrict
        (build_resume_args typed (new_checkpoint stopped)).bandwidth_limit_mbps
        typed.bandwidth_limit_mbps
    × ((build_resume_args typed (new_checkpoint stopped)).dry_run
        ≡ (typed.dry_run || stopped.dry_run))
    × ((build_resume_args typed (new_checkpoint stopped)).refuse_dest_links
        ≡ (typed.refuse_dest_links || stopped.refuse_dest_links))
    × ((build_resume_args typed (new_checkpoint stopped)).mirror ≡ typed.mirror)
    × ((build_resume_args typed (new_checkpoint stopped)).keep_generations ≡ typed.keep_generations)
    × ((build_resume_args typed (new_checkpoint stopped)).pre_command ≡ typed.pre_command)
    × ((build_resume_args typed (new_checkpoint stopped)).post_command ≡ typed.post_command)
resume_restricts_example = resume_restricts typed stopped

abbrev looks : Looks
looks [] = not_there
looks (_ ∷ []) = entry false
looks (_ ∷ _ ∷ []) = entry false
looks (_ ∷ _ ∷ _ ∷ _) = not_there

ensure_no_links_example :
    ensure_no_links (λ _. "p") looks [] (root_dir ∷ normal "d" ∷ normal "new" ∷ []) ≡ ok tt
    ↔ Clear looks [] [] (root_dir ∷ normal "d" ∷ normal "new" ∷ [])
ensure_no_links_example =
    ensure_no_links_lem (λ _. "p") looks [] (root_dir ∷ normal "d" ∷ normal "new" ∷ [])
