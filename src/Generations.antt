-- ===== src/Generations.antt =====
-- Backup generations: crates/rustcopy-core/src/generations.rs, without the manifest's file (that is
-- Manifest.antt). A relative path is the list of its components.
pub mod Cycles
pub mod Retention
pub mod Index
pub mod Changes
use rustcopy.Base.{
  ℕ, zero, suc, ◌+◌, ◌-◌, String, Bool, true, false, not, ◌&&◌, ◌||◌, Option, none, some, List, [],
  ◌∷◌, ◌++◌, map, length, take, drop, keep_if, Eq, ◌==◌, contains, nat_eq, string_eq, list_eq, ltb,
  leb, if◌then◌else◌,
}
use mathlib.Core.List.{reverse, flatten}

pub data BackupType : Type 0 where
  full incremental differential : BackupType

pub BackupType-discrete : Discrete BackupType
BackupType-discrete = hlevel

instance unfoldable pub backup_type_eq : Eq BackupType
unfolding BackupType-discrete
backup_type_eq = record { dec = BackupType-discrete }

abbrev pub as_str : BackupType → String
as_str full = "full"
as_str incremental = "incremental"
as_str differential = "differential"

abbrev pub RelPath : Type 0
RelPath = List String

-- `ScannedFile` of scan.rs and `GenerationFile` have the same three fields.
pub record ScannedFile : Type 0 where
  pub relative_path : RelPath
  pub size_bytes : ℕ
  pub modified_timestamp : ℕ

pub record GenerationFile : Type 0 where
  pub relative_path : RelPath
  pub size_bytes : ℕ
  pub modified_timestamp : ℕ

pub record Generation : Type 0 where
  pub id : String
  pub backup_type : BackupType
  pub created_at : String
  pub files_copied : ℕ
  pub files : List GenerationFile

pub record GenerationIndexEntry : Type 0 where
  pub id : String
  pub backup_type : BackupType
  pub created_at : String
  pub files_copied : ℕ

abbrev pub entry_of : Generation → GenerationIndexEntry
entry_of g = record {
  id = g.id;
  backup_type = g.backup_type;
  created_at = g.created_at;
  files_copied = g.files_copied;
}

-- The loop of `cycle_ranges`: the position, the start of the current cycle, and the ranges so far.
unfoldable pub cycle_loop : ℕ → ℕ → List (ℕ × ℕ) → List BackupType → List (ℕ × ℕ)
cycle_loop len start result [] = if ltb start len then result ++ ((start, len) ∷ []) else result
cycle_loop i start result (t ∷ types) =
    let cut = t == full && not (i == start) in
    cycle_loop (suc i) (if cut then i else start)
      (if cut then result ++ ((start, i) ∷ []) else result) types

unfoldable pub cycle_ranges : List BackupType → List (ℕ × ℕ)
cycle_ranges types = cycle_loop 0 0 [] types

-- `&items[range]`
abbrev pub slice {ℓ} : {A : Type ℓ} → List A → ℕ × ℕ → List A
slice items (from, to) = take (to - from) (drop from items)

pub record GenerationManifest : Type 0 where
  pub generations : List Generation

pub cycles : GenerationManifest → List (List Generation)
cycles m =
    map (slice m.generations) (cycle_ranges (map (λ (g : Generation). g.backup_type) m.generations))

abbrev pub flat_ids {ℓ} : {A : Type ℓ} → (A → String) → List (List A) → List String
flat_ids id [] = []
flat_ids id (c ∷ cs) = map id c ++ flat_ids id cs

-- Both `generations_to_prune` are this, over the generations and over the index.
abbrev pub ids_beyond {ℓ} : {A : Type ℓ} → (A → String) → List (List A) → ℕ → List String
ids_beyond id cs keep_cycles =
    if leb (length cs) keep_cycles then [] else flat_ids id (take (length cs - keep_cycles) cs)

pub generations_to_prune : GenerationManifest → ℕ → List String
generations_to_prune m keep_cycles = ids_beyond (λ g. g.id) (cycles m) keep_cycles

pub record GenerationIndex : Type 0 where
  pub entries : List GenerationIndexEntry

unfoldable pub index_to_prune : GenerationIndex → ℕ → List String
index_to_prune x keep_cycles =
    ids_beyond (λ e. e.id)
      (map (slice x.entries)
        (cycle_ranges (map (λ (e : GenerationIndexEntry). e.backup_type) x.entries)))
      keep_cycles

unfoldable pub retain_generations : GenerationManifest → List String → GenerationManifest
retain_generations m ids = record {
  generations = keep_if (λ g. not (contains ids g.id)) m.generations;
}

abbrev pub push : GenerationManifest → Generation → GenerationManifest
push m g = record { generations = m.generations ++ (g ∷ []) }

-- `iter().rev().find(p)`: the last one that satisfies the test
abbrev pub find_last {ℓ} : {A : Type ℓ} → (A → Bool) → List A → Option A
find_last p [] = none
find_last p (x ∷ xs) = elim (find_last p xs) [
  | some y ↦ some y
  | none ↦ if p x then some x else none
]

unfoldable pub latest : GenerationManifest → Option Generation
latest m = find_last (λ _. true) m.generations

unfoldable pub latest_full : GenerationManifest → Option Generation
latest_full m = find_last (λ g. g.backup_type == full) m.generations

-- The `HashMap` of the reference listing: of two entries with one path the later stays.
abbrev pub file_at : RelPath → List GenerationFile → Option GenerationFile
file_at path files = find_last (λ f. f.relative_path == path) files

abbrev pub is_changed : Option GenerationFile → ScannedFile → Bool
is_changed none file = true
is_changed (some prior) file =
    not (prior.size_bytes == file.size_bytes)
    || not (prior.modified_timestamp == file.modified_timestamp)

unfoldable pub changed_since : List ScannedFile → List GenerationFile → List ScannedFile
changed_since current reference =
    keep_if (λ file. is_changed (file_at file.relative_path reference) file) current

abbrev pub to_generation_file : ScannedFile → GenerationFile
to_generation_file f = record {
  relative_path = f.relative_path;
  size_bytes = f.size_bytes;
  modified_timestamp = f.modified_timestamp;
}

unfoldable pub to_generation_files : List ScannedFile → List GenerationFile
to_generation_files files = map to_generation_file files

abbrev pub exit_success : ℕ
exit_success = 0

abbrev pub exit_ingestion_problem : ℕ
exit_ingestion_problem = 1

abbrev pub exit_integrity_failed : ℕ
exit_integrity_failed = 4

pub record GenerationVerdict : Type 0 where
  pub exit_code : ℕ
  pub record_it : Bool

-- The verification is `none` when none ran; of one that ran only whether it passed is read.
unfoldable pub verdict : Bool → Option Bool → GenerationVerdict
verdict true integrity = record { exit_code = exit_ingestion_problem; record_it = false }
verdict false (some false) = record { exit_code = exit_integrity_failed; record_it = false }
verdict false _ = record { exit_code = exit_success; record_it = true }
