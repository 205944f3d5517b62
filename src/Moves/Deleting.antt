-- ===== src/Moves/Deleting.antt =====
-- Deleting the originals: `execute_move` and `remove_empty_folders` of
-- crates/rustcopy-core/src/moves.rs.
use rustcopy.Base.{
  ℕ, suc, ◌+◌, String, Bool, true, false, not, ◌&&◌, ◌||◌, Option, none, some, List, [], ◌∷◌,
  Result, ok, err, ◌==◌, nat_eq, string_eq, list_eq, if◌then◌else◌,
}
use rustcopy.Errors.{IngestError, copy_plan_invalid}
use rustcopy.Generations.{RelPath}
use rustcopy.Safety.{SafetyLevel, Confirmation, is_confirmed}
use rustcopy.Moves.{
  PlannedDelete, MovePlan, is_dir, Meta, Disk, symlink_metadata, removed, same_time, is_plain_file,
  strip_prefix, Walk, require_level,
}

pub record MoveOutcome : Type 0 where
  pub deleted : ℕ
  pub deleted_bytes : ℕ
  pub skipped_changed : ℕ
  pub failed : ℕ
  pub folders_removed : ℕ
  pub first_error : Option String

abbrev pub no_outcome : MoveOutcome
no_outcome = record {
  deleted = 0;
  deleted_bytes = 0;
  skipped_changed = 0;
  failed = 0;
  folders_removed = 0;
  first_error = none;
}

-- `Result::is_ok_and`
abbrev pub is_ok_and : (Meta → Bool) → Option Meta → Bool
is_ok_and test none = false
is_ok_and test (some meta) = test meta

abbrev pub still_at : ℕ → Option ℕ → Bool
still_at planned_time none = false
still_at planned_time (some m) = same_time m planned_time

unfoldable pub unchanged : Disk → PlannedDelete → Bool
unchanged disk item =
    is_ok_and
      (λ meta. is_plain_file meta && meta.len == item.size && still_at item.modified meta.modified)
      (symlink_metadata disk item.source)

unfoldable pub copy_still_there : Disk → PlannedDelete → Bool
copy_still_there disk item =
    is_ok_and (λ meta. is_plain_file meta && meta.len == item.size)
      (symlink_metadata disk item.dest)

-- Why a path may not be removed, if it may not.
abbrev pub Denied : Type 0
Denied = RelPath → Option String

abbrev pub get_or_insert : Option String → String → Option String
get_or_insert none message = some message
get_or_insert (some first) message = some first

unfoldable pub execute_item : Denied → Disk × MoveOutcome → PlannedDelete → Disk × MoveOutcome
execute_item denied (disk, outcome) item =
    if not (unchanged disk item) || not (copy_still_there disk item)
    then (disk, record outcome { skipped_changed = suc outcome.skipped_changed })
    else elim (denied item.source) [
      | none ↦ (
        removed disk item.source,
        record outcome {
          deleted = suc outcome.deleted;
          deleted_bytes = outcome.deleted_bytes + item.size;
        },
      )
      | some message ↦ (
        disk,
        record outcome {
          failed = suc outcome.failed;
          first_error = get_or_insert outcome.first_error message;
        },
      )
    ]

unfoldable pub execute_items : Denied → Disk × MoveOutcome → List PlannedDelete → Disk × MoveOutcome
execute_items denied state [] = state
execute_items denied state (item ∷ items) =
    execute_items denied (execute_item denied state item) items

abbrev pub has_children : Disk → RelPath → Bool
has_children [] folder = false
has_children ((p, _) ∷ disk) folder =
    (elim (strip_prefix p folder) [ some (_ ∷ _) ↦ true | some [] ↦ false | none ↦ false ])
    || has_children disk folder

-- `remove_dir`: only a folder, only an empty one, and only if the system lets it.
unfoldable pub remove_dir : Denied → Disk → RelPath → Option Disk
remove_dir denied disk folder = elim (symlink_metadata disk folder) [
  | none ↦ none
  | some meta ↦ elim (denied folder) [
    | some _ ↦ none
    | none ↦
        if is_dir meta.file_type && not (has_children disk folder)
        then some (removed disk folder)
        else none
  ]
]

-- `Vec::dedup`: of equal paths one behind the other, one stays.
abbrev pub dedup : List RelPath → List RelPath
dedup [] = []
dedup (x ∷ []) = x ∷ []
dedup (x ∷ y ∷ paths) = let rest = dedup (y ∷ paths) in if x == y then rest else x ∷ rest

-- `folders` are those under a root, deepest first, as `walkdir` lists them.
unfoldable pub remove_empty_folders :
    Denied → Disk × MoveOutcome → List RelPath → Disk × MoveOutcome
remove_empty_folders denied state [] = state
remove_empty_folders denied (disk, outcome) (folder ∷ folders) =
    elim (remove_dir denied disk folder) [
      | none ↦ remove_empty_folders denied (disk, outcome) folders
      | some after ↦
          remove_empty_folders denied
            (after, record outcome { folders_removed = suc outcome.folders_removed }) folders
    ]

unfoldable pub remove_roots :
    Denied → (Disk → Walk) → Disk × MoveOutcome → List RelPath → Disk × MoveOutcome
remove_roots denied walk_folders state [] = state
remove_roots denied walk_folders state (root ∷ roots) =
    remove_roots denied walk_folders
      (remove_empty_folders denied state (dedup (walk_folders state.0 root))) roots

unfoldable pub execute_move :
    Denied
    → (Disk → Walk)
    → Disk
    → SafetyLevel
    → MovePlan
    → Confirmation
    → Disk × Result IngestError MoveOutcome
execute_move denied walk_folders disk level plan confirmation = elim (require_level level) [
  | err e ↦ (disk, err e)
  | ok _ ↦
      if not (is_confirmed confirmation)
      then (disk, err (copy_plan_invalid "Cancellare gli originali richiede una conferma."))
      else let done =
          remove_roots denied walk_folders (execute_items denied (disk, no_outcome) plan.delete)
            plan.roots in
        (done.0, ok done.1)
]
