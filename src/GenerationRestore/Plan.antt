-- ===== src/GenerationRestore/Plan.antt =====
-- The plan of a restore, from the manifest and the folders.
use rustcopy.Base.{string_eq, nat_eq}
use rustcopy.Generations.{backup_type_eq}
