-- ===== src/Moves/Planning.antt =====
-- What a move would delete and what it would leave: `plan_move` of
-- crates/rustcopy-core/src/moves.rs.
use rustcopy.Base.{
  ◌+◌, Bool, true, not, ◌||◌, Option, none, some, List, [], ◌∷◌, ◌++◌, Result, ok, ◌>>=◌, ◌==◌,
  nat_eq, string_eq, list_eq, if◌then◌else◌,
}
use rustcopy.Errors.{IngestError}
use rustcopy.Generations.{RelPath, find_last}
use rustcopy.Safety.{SafetyLevel}
use rustcopy.Moves.{
  VerifiedCopy, missing_in_destination, different_in_destination, not_plain_file, PlannedDelete,
  MovePlan, empty_plan, keep, Meta, Disk, symlink_metadata, same_time, is_plain_file, strip_prefix,
  Walk, require_level,
}

-- Where the file at `path` was copied to: a source that is one file went into the folder by its
-- name.
unfoldable pub dest_of : Bool → RelPath → RelPath → RelPath → Option RelPath
dest_of root_is_file source_root dest_root path =
    if root_is_file
    then elim (find_last (λ _. true) path) [
      | some name ↦ some (dest_root ++ (name ∷ []))
      | none ↦ none
    ]
    else elim (strip_prefix path source_root) [
      | some relative ↦ some (dest_root ++ relative)
      | none ↦ none
    ]

abbrev pub planned : MovePlan → PlannedDelete → MovePlan
planned plan item = record plan {
  delete_bytes = plan.delete_bytes + item.size;
  delete = plan.delete ++ (item ∷ []);
}

-- The copy found at `dest`.
unfoldable pub judge_copy : MovePlan → RelPath → RelPath → Meta → Meta → MovePlan
judge_copy plan path dest meta dest_meta = elim (meta.modified) [
  | none ↦ keep plan path different_in_destination
  | some modified ↦ elim (dest_meta.modified) [
    | none ↦ keep plan path different_in_destination
    | some dest_modified ↦
        if not (is_plain_file dest_meta)
          || not (dest_meta.len == meta.len)
          || not (same_time modified dest_modified)
        then keep plan path different_in_destination
        else planned plan
            (record { source = path; dest = dest; size = meta.len; modified = modified })
  ]
]

-- One listed entry that is not a folder.
unfoldable pub plan_entry : Disk → RelPath → RelPath → Bool → MovePlan → RelPath → MovePlan
plan_entry disk source_root dest_root root_is_file plan path = elim (symlink_metadata disk path) [
  | none ↦ keep plan path not_plain_file
  | some meta ↦
      if not (is_plain_file meta)
      then keep plan path not_plain_file
      else elim (dest_of root_is_file source_root dest_root path) [
        | none ↦ keep plan path not_plain_file
        | some dest ↦ elim (symlink_metadata disk dest) [
          | none ↦ keep plan path missing_in_destination
          | some dest_meta ↦ judge_copy plan path dest meta dest_meta
        ]
      ]
]

unfoldable pub plan_entries : Disk → RelPath → RelPath → Bool → MovePlan → List RelPath → MovePlan
plan_entries disk source_root dest_root root_is_file plan [] = plan
plan_entries disk source_root dest_root root_is_file plan (path ∷ paths) =
    plan_entries disk source_root dest_root root_is_file
      (plan_entry disk source_root dest_root root_is_file plan path) paths

-- `Path::is_file`, which follows links.
unfoldable pub plan_pairs :
    Disk → Walk → (RelPath → Bool) → MovePlan → List (RelPath × RelPath) → MovePlan
plan_pairs disk walk follows_to_file plan [] = plan
plan_pairs disk walk follows_to_file plan ((source_root, dest_root) ∷ pairs) =
    plan_pairs disk walk follows_to_file
      (plan_entries disk source_root dest_root (follows_to_file source_root)
        (record plan { roots = plan.roots ++ (source_root ∷ []) }) (walk source_root))
      pairs

unfoldable pub plan_move :
    Disk
    → Walk
    → (RelPath → Bool)
    → SafetyLevel
    → List (RelPath × RelPath)
    → VerifiedCopy
    → Result IngestError MovePlan
plan_move disk walk follows_to_file level pairs proof =
    require_level level >>= λ _. ok (plan_pairs disk walk follows_to_file empty_plan pairs)
