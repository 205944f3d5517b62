-- ===== src/GenerationRestore.antt =====
-- Restoring the state of a generation backup: crates/rustcopy-core/src/generation_restore.rs. The
-- two pure decisions: which folders a state is layered from, and which folder each file is taken
-- from, and `plan_restore`, which puts them together. The index and the manifest are given as they
-- were read, and what a scan finds of a generation's folder is an argument.
pub mod Chain
pub mod AfterPrune
pub mod Newest
pub mod History
pub mod Rebuild
pub mod Assign
pub mod Sources
pub mod Behind
pub mod Complete
pub mod Range
pub mod Plan
use rustcopy.Base.{
  ℕ, zero, suc, ◌+◌, ◌-◌, String, Bool, true, false, ◌&&◌, ◌||◌, Option, none, some, List, [], ◌∷◌,
  ◌++◌, map, length, get_elem?, take, Result, ok, err, ◌>>=◌, ltb, leb, ◌==◌, string_eq, nat_eq,
  list_eq, if◌then◌else◌,
}
use rustcopy.Errors.{IngestError, generation_restore}
use rustcopy.Generations.{
  BackupType, full, incremental, differential, backup_type_eq, RelPath, ScannedFile, GenerationFile,
  Generation, GenerationIndexEntry, GenerationIndex, GenerationManifest, find_last, exit_success,
  exit_ingestion_problem, exit_integrity_failed,
}

abbrev pub refuse {ℓ} : {A : Type ℓ} → String → Result IngestError A
refuse reason = err (generation_restore reason)

-- `iter().rposition(|t| *t == Full)`
abbrev pub last_full : List BackupType → Option ℕ
last_full [] = none
last_full (t ∷ types) = elim (last_full types) [
  | some i ↦ some (suc i)
  | none ↦ if t == full then some 0 else none
]

abbrev pub differential_chain : Option ℕ → ℕ → Result IngestError (List ℕ)
differential_chain none target =
    refuse "this differential generation has no full generation before it"
differential_chain (some first) target = ok (first ∷ target ∷ [])

pub chain_for : List BackupType → ℕ → Result IngestError (List ℕ)
chain_for types zero = elim (get_elem? types 0) [
  | none ↦ refuse "no such generation"
  | some full ↦ ok (0 ∷ [])
  | some differential ↦ differential_chain (last_full (take 0 types)) 0
  | some incremental ↦ refuse "this incremental generation has no generation before it"
]
chain_for types (suc t) = elim (get_elem? types (suc t)) [
  | none ↦ refuse "no such generation"
  | some full ↦ ok (suc t ∷ [])
  | some differential ↦ differential_chain (last_full (take (suc t) types)) (suc t)
  | some incremental ↦ chain_for types t >>= λ chain. ok (chain ++ (suc t ∷ []))
]

-- The `HashMap` from a path to the folder's place in the chain and the file that it holds.
abbrev pub Newest : Type 0
Newest = List (RelPath × ℕ × ScannedFile)

abbrev pub lookup_newest : RelPath → Newest → Option (ℕ × ScannedFile)
lookup_newest path [] = none
lookup_newest path ((p, position, file) ∷ rest) =
    if p == path then some (position, file) else lookup_newest path rest

-- `newest.insert(…)` for each file of one folder: the later insertion wins.
pub insert_files : ℕ → List ScannedFile → Newest → Newest
insert_files position [] newest = newest
insert_files position (file ∷ files) newest =
    insert_files position files ((file.relative_path, position, file) ∷ newest)

pub insert_folders : ℕ → List (List ScannedFile) → Newest → Newest
insert_folders position [] newest = newest
insert_folders position (files ∷ stored) newest =
    insert_folders (suc position) stored (insert_files position files newest)

-- Where the file that the listing wants is taken from, if a copy of its size is held.
pub source_of : Newest → GenerationFile → Option (ℕ × ScannedFile)
source_of newest wanted = elim (lookup_newest wanted.relative_path newest) [
  | none ↦ none
  | some (position, held) ↦
      if held.size_bytes == wanted.size_bytes then some (position, held) else none
]

-- `steps[position].push(file)`
pub push_step : ℕ → ScannedFile → List (List ScannedFile) → List (List ScannedFile)
push_step position file [] = []
push_step zero file (step ∷ steps) = (step ++ (file ∷ [])) ∷ steps
push_step (suc position) file (step ∷ steps) = step ∷ push_step position file steps

-- The loop over the listing, with the steps and the missing paths so far.
abbrev pub Assigned : Type 0
Assigned = List (List ScannedFile) × List RelPath

pub assign_one : Newest → GenerationFile → Assigned → Assigned
assign_one newest wanted (steps, missing) = elim (source_of newest wanted) [
  | some (position, held) ↦ (push_step position held steps, missing)
  | none ↦ (steps, missing ++ (wanted.relative_path ∷ []))
]

pub assign_loop : Newest → List GenerationFile → Assigned → Assigned
assign_loop newest [] acc = acc
assign_loop newest (wanted ∷ listing) acc =
    assign_loop newest listing (assign_one newest wanted acc)

abbrev pub empty_steps {ℓ} : {A : Type ℓ} → List A → List (List ScannedFile)
empty_steps stored = map (λ _. []) stored

unfoldable pub assign : List GenerationFile → List (List ScannedFile) → Assigned
unfolding assign_loop assign_one source_of push_step insert_folders insert_files
assign listing stored = assign_loop (insert_folders 0 stored []) listing (empty_steps stored, [])

-- `ids.iter().position(|id| id == wanted)`
abbrev pub position_of : String → List String → Option ℕ
position_of wanted [] = none
position_of wanted (id ∷ ids) =
    let rest = position_of wanted ids in
    if id == wanted then some 0 else elim rest [ none ↦ none | some i ↦ some (suc i) ]

-- `is_latest` is the comparison with the word "latest", which ignores the ASCII case.
unfoldable pub resolve_target : Bool → List String → String → Result IngestError ℕ
resolve_target is_latest [] wanted = refuse "this destination holds no generation"
resolve_target is_latest (id ∷ ids) wanted =
    if is_latest
    then ok (length (id ∷ ids) - 1)
    else elim (position_of wanted (id ∷ ids)) [ none ↦ refuse wanted | some i ↦ ok i ]

pub record RestorePlan : Type 0 where
  pub target_id : String
  pub chain : List String
  pub steps : List (List ScannedFile)
  pub missing : List RelPath

-- What a scan of a generation's folder gives; `none` when there is no such folder.
abbrev pub Scan : Type 0
Scan = String → Option (Result IngestError (List ScannedFile))

-- `ids[position]`. The positions of a chain are in range; out of it the program would stop.
abbrev pub id_at : List String → ℕ → Result IngestError String
id_at ids position = elim (get_elem? ids position) [
  | none ↦ refuse "out of range"
  | some id ↦ ok id
]

abbrev pub scan_folder : Scan → String → Result IngestError (List ScannedFile)
scan_folder scan id = elim (scan id) [ none ↦ refuse id | some files ↦ files ]

unfoldable pub scan_chain :
    Scan → List String → List ℕ → Result IngestError (List (List ScannedFile))
scan_chain scan ids [] = ok []
scan_chain scan ids (position ∷ chain) =
    let rest = scan_chain scan ids chain in
    id_at ids position >>= λ id.
    scan_folder scan id >>= λ files. rest >>= λ stored. ok (files ∷ stored)

unfoldable pub names_of : List String → List ℕ → Result IngestError (List String)
names_of ids [] = ok []
names_of ids (position ∷ chain) =
    let rest = names_of ids chain in id_at ids position >>= λ id. rest >>= λ names. ok (id ∷ names)

abbrev pub found_generation : Option Generation → Result IngestError Generation
found_generation none = refuse "the manifest lost this generation while it was being read"
found_generation (some g) = ok g

unfoldable pub plan_restore :
    Scan → GenerationIndex → GenerationManifest → Bool → String → Result IngestError RestorePlan
unfolding assign
plan_restore scan index m is_latest wanted =
    let ids = map (λ (e : GenerationIndexEntry). e.id) index.entries in
    let types = map (λ (e : GenerationIndexEntry). e.backup_type) index.entries in
    resolve_target is_latest ids wanted >>= λ target. chain_for types target >>= λ chain.
    id_at ids target >>= λ target_id.
    found_generation (find_last (λ (g : Generation). g.id == target_id) m.generations)
    >>= λ generation. scan_chain scan ids chain >>= λ stored. names_of ids chain >>= λ names.
        ok (record {
          target_id = target_id;
          chain = names;
          steps = (assign generation.files stored).0;
          missing = (assign generation.files stored).1;
        })

-- A component of a path, as `normalised` tells them apart; a name is in lower case already.
pub data Component : Type 0 where
  cur_dir parent_dir : Component
  other : String → Component

-- `parts.pop()`
abbrev pub pop : List String → List String
pop [] = []
pop (x ∷ []) = []
pop (x ∷ y ∷ xs) = x ∷ pop (y ∷ xs)

pub normalised_from : List String → List Component → List String
normalised_from parts [] = parts
normalised_from parts (cur_dir ∷ cs) = normalised_from parts cs
normalised_from parts (parent_dir ∷ cs) = normalised_from (pop parts) cs
normalised_from parts (other name ∷ cs) = normalised_from (parts ++ (name ∷ [])) cs

unfoldable pub normalised : List Component → List String
unfolding normalised_from
normalised path = normalised_from [] path

unfoldable pub target_is_inside_backup : List Component → List Component → Bool
unfolding normalised
target_is_inside_backup backup_root target =
    let root = normalised backup_root in
    let place = normalised target in
    leb (length root) (length place) && take (length root) place == root

unfoldable pub exit_code : Bool → ℕ → ℕ → ℕ
exit_code copy_failed missing size_mismatches =
    if copy_failed
    then exit_ingestion_problem
    else if ltb 0 missing || ltb 0 size_mismatches
    then exit_integrity_failed
    else exit_success
