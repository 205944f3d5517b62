-- ===== src/CopyPlan/WithFiles.antt =====
-- A copy of folders and single files: `plan_copy_with_files` and `lexical_parent_text` of
-- crates/rustcopy-core/src/runner.rs. Whether a path is a file is asked of the disk, and a
-- parameter.
pub mod Checked
pub mod Woven
use Prim.Native.Char.{code}
use rustcopy.Base.{
  String, Bool, true, false, not, Option, none, some, unwrap_or, List, [], ◌∷◌, ◌++◌, keep_if, ◌==◌,
  nat_eq, string_eq, list_eq, contains, if◌then◌else◌, Result, ok, err, ◌>>=◌, ◌>>◌,
}
use rustcopy.Errors.{IngestError, copy_plan_invalid}
use rustcopy.Strings.{append, is_separator}
use rustcopy.JobEditor.{refuse_if}
use rustcopy.CopyPlan.{trim_end_separators, folder_name, is_nil, path_parts, plan_copy, quoted}

-- The text before the last separator, if there is one.
unfoldable pub before_separator : String → Option String
before_separator String.[] = none
before_separator (String.◌∷◌ c s) = elim (before_separator s) [
  | some before ↦ some (String.◌∷◌ c before)
  | none ↦ if is_separator (code c) then some String.[] else none
]

unfoldable pub lexical_parent_text : String → String
lexical_parent_text path = unwrap_or (before_separator (trim_end_separators path)) String.[]

-- The original order: a file goes into the destination, a folder takes the next planned pair.
unfoldable pub woven :
    (String → Bool) → String → List String → List (String × String) → List (String × String)
woven is_file dest_root [] items = []
woven is_file dest_root (source ∷ sources) [] =
    let rest = woven is_file dest_root sources [] in
    if is_file source then (source, dest_root) ∷ rest else rest
woven is_file dest_root (source ∷ sources) (item ∷ items) =
    let rest = woven is_file dest_root sources (item ∷ items) in
    let taken = woven is_file dest_root sources items in
    if is_file source then (source, dest_root) ∷ rest else item ∷ taken

module _ (to_lowercase : String → String) where
  -- A chosen file, against the names that came before it.
  unfoldable pub check_file : String → List String → String → Result IngestError (Unit {0})
  check_file dest_root seen file =
      let name = folder_name file in
      refuse_if
        (path_parts to_lowercase (lexical_parent_text file) == path_parts to_lowercase dest_root)
        (copy_plan_invalid
          (quoted name " è già nella cartella di destinazione: scegli una destinazione diversa."))
      >> refuse_if (contains seen (to_lowercase name)) (
          copy_plan_invalid (
            append "Due file si chiamano " (
              quoted name
                ": finirebbero nello stesso posto. Copiali con due operazioni separate.")))

  unfoldable pub check_files : String → List String → List String → Result IngestError (Unit {0})
  check_files dest_root seen [] = ok tt
  check_files dest_root seen (file ∷ files) =
      check_file dest_root seen file
      >> check_files dest_root (seen ++ (to_lowercase (folder_name file) ∷ [])) files

  unfoldable pub plan_folders : List String → String → Result IngestError (List (String × String))
  plan_folders [] dest_root = ok []
  plan_folders (folder ∷ folders) dest_root = plan_copy to_lowercase (folder ∷ folders) dest_root

  unfoldable pub plan_copy_with_files :
      (String → Bool) → List String → String → Result IngestError (List (String × String))
  plan_copy_with_files is_file sources dest_root =
      let files = keep_if is_file sources in
      let folders = keep_if (λ path. not (is_file path)) sources in
      if is_nil files
      then plan_copy to_lowercase sources dest_root
      else (refuse_if (is_nil (path_parts to_lowercase dest_root))
            (copy_plan_invalid "Scegli la cartella di destinazione.")
          >> (plan_folders folders dest_root >>= λ items.
              check_files dest_root [] files >> ok (woven is_file dest_root sources items)))
