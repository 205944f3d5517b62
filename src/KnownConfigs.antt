-- ===== src/KnownConfigs.antt =====
-- The configuration files that the person added to the list of tasks: `add_config` and
-- `remove_config` of crates/rustcopy-core/src/sessions.rs. The path made absolute and what
-- `read_pairs` says of the file are parameters.
pub mod Set
use rustcopy.Base.{
  Option, none, some, List, [], ◌∷◌, ◌++◌, if◌then◌else◌, Result, ok, err, ◌>>◌, ◌>>=◌,
}
use rustcopy.Errors.{IngestError}
use rustcopy.Text.{Text}
use rustcopy.PathList.{Saving, read_paths, write_paths, any_same, others}

abbrev pub read_known : Option Text → List Text
read_known file = read_paths file

abbrev pub write_known :
    Saving → Option Text → List Text → Result IngestError (Unit {0}) × Option Text
write_known saving file known = write_paths saving file known

-- The chosen file, once its path is absolute and it can be read as a configuration.
unfoldable pub accepted_file :
    Result IngestError Text → (Text → Result IngestError (Unit {0})) → Result IngestError Text
accepted_file absolute readable = absolute >>= λ path. readable path >> ok path

module _ (to_lowercase : Text → Text) where
  -- A file that is listed already, however its path is spelled, is not listed again.
  unfoldable pub keep_file :
      Saving → Option Text → Text → Result IngestError (Unit {0}) × Option Text
  keep_file saving file path =
      if any_same to_lowercase (read_known file) path
      then (ok tt, file)
      else write_known saving file (read_known file ++ (path ∷ []))

  unfoldable pub add_config :
      Saving
      → Result IngestError Text
      → (Text → Result IngestError (Unit {0}))
      → Option Text
      → Result IngestError (Unit {0}) × Option Text
  add_config saving absolute readable file = elim (accepted_file absolute readable) [
    | err e ↦ (err e, file)
    | ok path ↦ keep_file saving file path
  ]

  unfoldable pub remove_config :
      Saving → Text → Option Text → Result IngestError (Unit {0}) × Option Text
  remove_config saving path file =
      write_known saving file (others to_lowercase (read_known file) path)
