-- ===== src/PathList.antt =====
-- A list of paths kept as a text file, one to a line: how crates/rustcopy-core/src/suspended.rs and
-- sessions.rs (`configs.txt`) read and write theirs.
pub mod Rendered
pub mod Members
pub mod Views
use rustcopy.Base.{
  ok, err, ◌>>◌, true, ◌≡◌, if◌then◌else◌, Bool, false, not, ◌||◌, Option, none, some, List, [],
  ◌∷◌, ◌++◌, map, keep_if, ◌==◌, nat_eq, list_eq, Result,
}
use rustcopy.Errors.{IngestError}
use rustcopy.Text.{Text, newline, trim, is_empty, lines_from}
use rustcopy.Safety.{without_bom}

-- The paths of a file, if there is one: trimmed lines that are not blank.
unfoldable pub read_paths : Option Text → List Text
read_paths none = []
read_paths (some text) =
    keep_if (λ line. not (is_empty line)) (map trim (lines_from [] (without_bom text)))

unfoldable pub render_paths : List Text → Text
render_paths [] = []
render_paths (path ∷ paths) = path ++ (newline ∷ render_paths paths)

-- How the disk answers to a change: whether the folder can be made, and the file written.
pub record Saving : Type 0 where
  pub folder : Result IngestError (Unit {0})
  pub written : Result IngestError (Unit {0})

-- The folder is made first.
unfoldable pub saved : Saving → Result IngestError (Unit {0})
saved saving = saving.folder >> saving.written

abbrev pub is_saved : Saving → Bool
is_saved saving = elim (saved saving) [ ok done ↦ true | err e ↦ false ]

-- The file is written as a whole, or stays as it was.
unfoldable pub write_paths :
    Saving → Option Text → List Text → Result IngestError (Unit {0}) × Option Text
write_paths saving file paths = elim (saved saving) [
  | ok done ↦ (ok done, some (render_paths paths))
  | err e ↦ (err e, file)
]

-- Paths are compared as Windows does, by their text in small letters.
module _ (to_lowercase : Text → Text) where
  abbrev pub same_path : Text → Text → Bool
  same_path a b = to_lowercase a == to_lowercase b

  abbrev pub any_same : List Text → Text → Bool
  any_same [] wanted = false
  any_same (path ∷ paths) wanted = same_path path wanted || any_same paths wanted

  -- `filter(|p| key(p) != wanted)`
  abbrev pub others : List Text → Text → List Text
  others paths wanted = keep_if (λ path. not (same_path path wanted)) paths

  -- No path is in the list twice.
  abbrev pub AllApart : List Text → Type 0
  AllApart [] = Unit
  AllApart (path ∷ paths) = (any_same paths path ≡ false) × AllApart paths

-- The abstract view of such a list: a set of paths, which forgets order and spelling.
abbrev pub PathSet : Type 0
PathSet = Text → Bool

abbrev pub no_paths : PathSet
no_paths wanted = false

abbrev pub set_to : (Text → Text) → Bool → Text → PathSet → PathSet
set_to to_lowercase present path paths wanted =
    if same_path to_lowercase path wanted then present else paths wanted
