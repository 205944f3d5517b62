-- ===== src/Suspended.antt =====
-- The tasks that the person has suspended: crates/rustcopy-core/src/suspended.rs. The file is the
-- text that it has, or none; whether the folder can be made and the file written is a parameter,
-- and so is Unicode's table of small letters.
pub mod Set
use rustcopy.Base.{Bool, Option, none, List, [], ◌∷◌, ◌++◌, if◌then◌else◌, Result, ok, err, ◌>>◌}
use rustcopy.Errors.{IngestError}
use rustcopy.Text.{Text}
use rustcopy.PathList.{Saving, read_paths, write_paths, any_same, others}

module _ (to_lowercase : Text → Text) where
  unfoldable pub contains : Option Text → Text → Bool
  contains file config = any_same to_lowercase (read_paths file) config

  unfoldable pub set :
      Saving → Option Text → Text → Bool → Result IngestError (Unit {0}) × Option Text
  set saving file config suspended =
      let kept = others to_lowercase (read_paths file) config in
      let paths = if suspended then kept ++ (config ∷ []) else kept in write_paths saving file paths
