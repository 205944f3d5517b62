-- ===== src/Moves.antt =====
-- The two-step move: crates/rustcopy-core/src/moves.rs. The disk is an association list from paths
-- to what the file system knows of them; what `walkdir` lists and whether a file may be deleted are
-- parameters. Times are nanoseconds since a fixed epoch.
pub mod Planning
pub mod Deleting
pub mod Folders
pub mod CopiedTo
pub mod Verdict
pub mod Plan
pub mod Execute
use rustcopy.Base.{
  ℕ, suc, ◌+◌, ◌-◌, String, Bool, true, false, not, ◌&&◌, ◌||◌, Option, none, some, List, [], ◌∷◌,
  ◌++◌, length, keep_if, Result, ok, err, ◌>>=◌, Eq, ◌==◌, nat_eq, string_eq, list_eq, ltb, leb,
  if◌then◌else◌,
}
use rustcopy.Errors.{IngestError, copy_plan_invalid}
use rustcopy.Generations.{RelPath, find_last}
use rustcopy.Safety.{SafetyLevel, can_move, allows, Confirmation, is_confirmed, Feature}

abbrev pub mtime_tolerance : ℕ
mtime_tolerance = 2000000000

abbrev pub kept_examples_limit : ℕ
kept_examples_limit = 20

-- The proof holds nothing; only `check` makes one.
pub data VerifiedCopy : Type 0 where
  verified : VerifiedCopy

abbrev pub refuse {ℓ} : {A : Type ℓ} → String → Result IngestError A
refuse why = err (copy_plan_invalid why)

unfoldable pub check :
    Option String → Option ℕ → Bool → Option Bool → Result IngestError VerifiedCopy
check integrity_status files_checked dry_run exit_code_is_success =
    if dry_run
    then refuse "quella copia era una simulazione."
    else if not (elim exit_code_is_success [ some b ↦ b | none ↦ false ])
    then refuse "la copia non è finita bene."
    else if elim files_checked [ some _ ↦ false | none ↦ true ]
    then refuse "la copia non è stata verificata."
    else if not (elim integrity_status [ some s ↦ s == "Passed" | none ↦ false ])
    then refuse "la verifica ha trovato differenze."
    else ok verified

pub data KeepReason : Type 0 where
  missing_in_destination different_in_destination not_plain_file : KeepReason

pub record PlannedDelete : Type 0 where
  pub source : RelPath
  pub dest : RelPath
  pub size : ℕ
  pub modified : ℕ

pub record MovePlan : Type 0 where
  pub delete : List PlannedDelete
  pub delete_bytes : ℕ
  pub roots : List RelPath
  pub kept_missing : ℕ
  pub kept_different : ℕ
  pub kept_not_plain : ℕ
  pub kept_examples : List (RelPath × KeepReason)

abbrev pub empty_plan : MovePlan
empty_plan = record {
  delete = [];
  delete_bytes = 0;
  roots = [];
  kept_missing = 0;
  kept_different = 0;
  kept_not_plain = 0;
  kept_examples = [];
}

abbrev pub kept : MovePlan → ℕ
kept plan = plan.kept_missing + plan.kept_different + plan.kept_not_plain

abbrev pub counted : MovePlan → KeepReason → MovePlan
counted plan missing_in_destination = record plan { kept_missing = suc plan.kept_missing }
counted plan different_in_destination = record plan { kept_different = suc plan.kept_different }
counted plan not_plain_file = record plan { kept_not_plain = suc plan.kept_not_plain }

unfoldable pub keep : MovePlan → RelPath → KeepReason → MovePlan
keep plan path reason = record (counted plan reason) {
  kept_examples =
      if ltb (length plan.kept_examples) kept_examples_limit
      then plan.kept_examples ++ ((path, reason) ∷ [])
      else plan.kept_examples;
}

pub data FileType : Type 0 where
  file dir symlink other : FileType

abbrev pub is_file : FileType → Bool
is_file file = true
is_file _ = false

abbrev pub is_dir : FileType → Bool
is_dir dir = true
is_dir _ = false

abbrev pub is_symlink : FileType → Bool
is_symlink symlink = true
is_symlink _ = false

-- What `symlink_metadata` says of a path; a file system may not know the time.
pub record Meta : Type 0 where
  pub file_type : FileType
  pub is_reparse_point : Bool
  pub len : ℕ
  pub modified : Option ℕ

abbrev pub Disk : Type 0
Disk = List (RelPath × Meta)

unfoldable pub symlink_metadata : Disk → RelPath → Option Meta
symlink_metadata [] path = none
symlink_metadata ((p, meta) ∷ disk) path =
    let rest = symlink_metadata disk path in if p == path then some meta else rest

unfoldable pub removed : Disk → RelPath → Disk
removed disk path = keep_if (λ (p, _). not (p == path)) disk

unfoldable pub same_time : ℕ → ℕ → Bool
same_time a b = leb (if leb b a then a - b else b - a) mtime_tolerance

unfoldable pub is_plain_file : Meta → Bool
is_plain_file meta =
    is_file meta.file_type && not (is_symlink meta.file_type) && not meta.is_reparse_point

-- `path.strip_prefix(root)`
abbrev pub strip_prefix : RelPath → RelPath → Option RelPath
strip_prefix path [] = some path
strip_prefix [] (_ ∷ _) = none
strip_prefix (p ∷ path) (r ∷ root) =
    let rest = strip_prefix path root in if p == r then rest else none

-- What `walkdir` lists of a source folder, its entries that are not folders, links not followed.
abbrev pub Walk : Type 0
Walk = RelPath → List RelPath

-- Of the message, the part without the two levels' names.
unfoldable pub require_level : SafetyLevel → Result {0, 0} IngestError Unit
require_level level =
    if can_move level
    then ok tt
    else err (copy_plan_invalid "Il livello di sicurezza non permette di spostare.")
