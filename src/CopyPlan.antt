-- ===== src/CopyPlan.antt =====
-- Where the folders of a copy go: `plan_copy`, `path_parts` and `is_same_or_inside` of
-- crates/rustcopy-core/src/runner.rs. Unicode's table of small letters is a parameter.
pub mod Paths
pub mod Prefix
pub mod Placed
pub mod Clear
pub mod WithFiles
use Prim.Native.Char.{Char, code}
use rustcopy.Base.{
  ℕ, String, Bool, true, false, not, ◌&&◌, ◌||◌, List, [], ◌∷◌, ◌++◌, map, keep_if, length, take,
  ◌==◌, nat_eq, string_eq, list_eq, contains, leb, ltb, if◌then◌else◌, Result, ok, err, ◌>>=◌, ◌>>◌,
}
use rustcopy.Errors.{IngestError, copy_plan_invalid}
use rustcopy.Strings.{append, is_empty_string, is_separator, ends_with}
use rustcopy.Schedule.Requests.{is_ascii_alphabetic}
use rustcopy.JobEditor.{refuse_if}

abbrev pub lead : Char → List String → List String
lead c [] = String.◌∷◌ c String.[] ∷ []
lead c (part ∷ parts) = String.◌∷◌ c part ∷ parts

-- `split(['\\', '/'])`
unfoldable pub split_path : String → List String
split_path String.[] = String.[] ∷ []
split_path (String.◌∷◌ c s) =
    let rest = split_path s in if is_separator (code c) then String.[] ∷ rest else lead c rest

-- `trim_end_matches(['\\', '/'])`
unfoldable pub trim_end_separators : String → String
trim_end_separators String.[] = String.[]
trim_end_separators (String.◌∷◌ c s) =
    let rest = trim_end_separators s in
    if is_separator (code c) && is_empty_string rest then String.[] else String.◌∷◌ c rest

abbrev pub last_part : List String → String
last_part [] = String.[]
last_part (part ∷ []) = part
last_part (part ∷ next ∷ parts) = last_part (next ∷ parts)

-- The text behind the last separator, separators at the end aside.
unfoldable pub folder_name : String → String
folder_name source = last_part (split_path (trim_end_separators source))

abbrev pub is_part : String → Bool
is_part part = not (is_empty_string part) && not (part == ".")

abbrev pub is_nil : List String → Bool
is_nil [] = true
is_nil (part ∷ parts) = false

-- `inner[..outer.len()] == outer[..]`, for an outer that is not empty
unfoldable pub within : List String → List String → Bool
within inner outer =
    not (is_nil outer) && leb (length outer) (length inner) && take (length outer) inner == outer

-- A text behind another.
unfoldable pub behind : String → String → String
behind name String.[] = name
behind name (String.◌∷◌ c s) = String.◌∷◌ c (behind name s)

-- A letter and a colon in front, and nothing else.
abbrev pub has_drive : String → Bool
has_drive String.[] = false
has_drive (String.◌∷◌ c String.[]) = false
has_drive (String.◌∷◌ c (String.◌∷◌ d s)) = is_ascii_alphabetic (code c) && code d == b':'

abbrev pub is_bare_drive : String → Bool
is_bare_drive String.[] = false
is_bare_drive (String.◌∷◌ c String.[]) = false
is_bare_drive (String.◌∷◌ c (String.◌∷◌ d s)) =
    is_ascii_alphabetic (code c) && code d == b':' && is_empty_string s

unfoldable pub ends_in_separator : String → Bool
ends_in_separator String.[] = false
ends_in_separator (String.◌∷◌ c s) =
    let rest = ends_in_separator s in if is_empty_string s then is_separator (code c) else rest

-- `Path::join` with a name: one that starts with a drive replaces the path; an empty path, a bare
-- drive and a path with a separator at its end take no further separator.
unfoldable pub join : String → String → String
join root name =
    if has_drive name
    then name
    else if is_empty_string root || is_bare_drive root || ends_in_separator root
    then behind name root
    else behind (String.◌∷◌ "\\" name) root

abbrev pub quoted : String → String → String
quoted name message = append "\"" (append name (append "\"" message))

module _ (to_lowercase : String → String) where
  unfoldable pub path_parts : String → List String
  path_parts path = map to_lowercase (keep_if is_part (split_path path))

  unfoldable pub is_same_or_inside : String → String → Bool
  is_same_or_inside inner outer = within (path_parts inner) (path_parts outer)

  -- A chosen folder, against the names that came before it.
  unfoldable pub check_source : String → List String → String → Result IngestError (Unit {0})
  check_source dest_root names source =
      let name = folder_name source in
      refuse_if (ltb (length (path_parts source)) 2 || is_empty_string name || ends_with b':' name)
        (copy_plan_invalid
          (quoted source " è un'intera unità: scegli una cartella al suo interno."))
      >> refuse_if (is_same_or_inside dest_root source) (
          copy_plan_invalid (
            append "La destinazione " (
              quoted dest_root (
                append " sta dentro " (
                  quoted source
                    " (o coincide con essa): la copia continuerebbe a copiare se stessa. Scegli una destinazione fuori da quella cartella.")))))
      >> refuse_if (contains names (to_lowercase name)) (
          copy_plan_invalid (
            append "Due cartelle si chiamano " (
              quoted name
                ": finirebbero nella stessa cartella di destinazione. Copiale con due operazioni separate.")))

  -- The loop over the sources, with the names so far.
  unfoldable pub plan_sources :
      String → List String → List String → Result IngestError (List (String × String))
  plan_sources dest_root names [] = ok []
  plan_sources dest_root names (source ∷ sources) =
      check_source dest_root names source
      >> (plan_sources dest_root (names ++ (to_lowercase (folder_name source) ∷ [])) sources
          >>= λ planned. ok ((source, join dest_root (folder_name source)) ∷ planned))

  -- No source is where it would go.
  unfoldable pub check_planned : List (String × String) → Result IngestError (Unit {0})
  check_planned [] = ok tt
  check_planned ((source, dest) ∷ planned) =
      refuse_if (is_same_or_inside source dest) (
        copy_plan_invalid
          (quoted source " è già la cartella di destinazione: scegli una destinazione diversa."))
      >> check_planned planned

  unfoldable pub plan_copy : List String → String → Result IngestError (List (String × String))
  plan_copy sources dest_root =
      refuse_if (is_nil sources) (copy_plan_invalid "Scegli almeno una cartella da copiare.")
      >> refuse_if (is_nil (path_parts dest_root))
          (copy_plan_invalid "Scegli la cartella di destinazione.")
      >> (plan_sources dest_root [] sources >>= λ planned. check_planned planned >> ok planned)
