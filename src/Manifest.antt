-- ===== src/Manifest.antt =====
-- The manifest's file: crates/rustcopy-core/src/generations.rs, one printed generation to a line. A
-- file is its text, `none` before it exists. What serde_json reads and prints is a parameter.
pub mod Lines
pub mod RoundTrip
pub mod Interrupted
pub mod Streaming
use rustcopy.Base.{
  string_eq, ℕ, String, ◌≡◌, Bool, true, false, not, Option, none, some, List, [], ◌∷◌, ◌++◌, map,
  keep_if, Result, ok, err, ◌>>=◌, if◌then◌else◌, ◌==◌, nat_eq,
}
use rustcopy.Errors.{IngestError, io, ErrorKind}
use rustcopy.Generations.{
  GenerationIndexEntry, entry_of, find_last, BackupType, full, backup_type_eq, Generation,
  GenerationManifest, push,
}
use rustcopy.Text.{Text, newline, trim, is_empty, lines_from, OneLine}

pub record Serde : Type 0 where
  pub parse_generation : Text → Option Generation
  pub parse_entry : Text → Option GenerationIndexEntry
  pub parse_manifest : Text → Option GenerationManifest
  pub print : Generation → Text

-- What serde_json does on a generation: one line, without blanks around it, that reads back.
pub record Prints (s : Serde) (g : Generation) : Type 0 where
  pub one_line : OneLine (s.print g)
  pub no_blanks : trim (s.print g) ≡ s.print g
  pub not_empty : is_empty (s.print g) ≡ false
  pub reads_back : s.parse_generation (s.print g) ≡ some g
  pub entry_reads_back : s.parse_entry (s.print g) ≡ some (entry_of g)

abbrev pub File : Type 0
File = Option Text

-- `content.lines().map(str::trim).filter(|line| !line.is_empty())`
unfoldable pub clean_lines : Text → List Text
clean_lines content = keep_if (λ line. not (is_empty line)) (map trim (lines_from [] content))

abbrev pub invalid_data {ℓ} : {A : Type ℓ} → String → Result IngestError A
invalid_data path = err (io path ErrorKind.invalid_data)

-- The loop over the lines: one that does not parse is dropped at the end, and fatal before it.
unfoldable pub load_lines : Serde → String → List Text → Result IngestError (List Generation)
load_lines s path [] = ok []
load_lines s path (line ∷ lines) =
    let rest = load_lines s path lines in
    elim (s.parse_generation line) [
      | some g ↦ rest >>= λ gs. ok (g ∷ gs)
      | none ↦ elim lines [ [] ↦ ok [] | _ ∷ _ ↦ invalid_data path ]
    ]

abbrev pub parse_legacy : Serde → String → Text → Result IngestError GenerationManifest
parse_legacy s path content = elim (s.parse_manifest content) [
  | some m ↦ ok m
  | none ↦ invalid_data path
]

abbrev pub load_content : Serde → String → Text → List Text → Result IngestError GenerationManifest
load_content s path content [] = ok (record { generations = [] })
load_content s path content (line ∷ lines) = elim (s.parse_generation line) [
  | some _ ↦ load_lines s path (line ∷ lines) >>= λ gs. ok (record { generations = gs })
  | none ↦ parse_legacy s path content
]

unfoldable pub load_or_default : Serde → String → File → Result IngestError GenerationManifest
load_or_default s path none = ok (record { generations = [] })
load_or_default s path (some content) = load_content s path content (clean_lines content)

abbrev pub ndjson_line : Serde → Generation → Text
ndjson_line s g = s.print g ++ (newline ∷ [])

abbrev pub ndjson : Serde → List Generation → Text
ndjson s [] = []
ndjson s (g ∷ gs) = ndjson_line s g ++ ndjson s gs

unfoldable pub save : Serde → GenerationManifest → File
save s m = some (ndjson s m.generations)

-- `read_line` on a file just opened, without the end of the line
unfoldable pub first_line : Text → Text
first_line [] = []
first_line (c ∷ t) = let rest = first_line t in if c == newline then [] else c ∷ rest

unfoldable pub is_legacy_format : Serde → File → Bool
is_legacy_format s none = false
is_legacy_format s (some content) =
    let line = trim (first_line content) in
    if is_empty line then false else elim (s.parse_generation line) [ some _ ↦ false | none ↦ true ]

abbrev pub content_of : File → Text
content_of none = []
content_of (some content) = content

unfoldable pub append_generation : Serde → String → File → Generation → Result IngestError File
append_generation s path file g =
    if is_legacy_format s file
    then (load_or_default s path file >>= λ m. ok (save s (push m g)))
    else ok (some (content_of file ++ ndjson_line s g))

-- The text from the start of each line on. An offset in the file is the text from there on.
unfoldable pub line_starts : Bool → Text → List Text
line_starts at_start [] = []
line_starts at_start (c ∷ t) =
    let rest = line_starts (c == newline) t in if at_start then (c ∷ t) ∷ rest else rest

abbrev pub Wanted : Type 0
Wanted = GenerationIndexEntry → Bool

abbrev pub visit : Wanted → Option Text → Text → GenerationIndexEntry → Option Text
visit wanted winner start entry = if wanted entry then some start else winner

-- `for_each_entry` with the visitor of `read_last_matching`: whether a line that did not parse is
-- pending, and the offset of the last wanted entry.
unfoldable pub for_each_entry :
    Serde → String → Wanted → Bool → Option Text → List Text → Result IngestError (Option Text)
for_each_entry s path wanted pending winner [] = ok winner
for_each_entry s path wanted pending winner (start ∷ starts) =
    let line = trim (first_line start) in
    let skipped = for_each_entry s path wanted pending winner starts in
    let held_back = for_each_entry s path wanted true winner starts in
    let visited : (GenerationIndexEntry → Result IngestError (Option Text)) =
      (λ entry. for_each_entry s path wanted false (visit wanted winner start entry) starts) in
    if is_empty line
    then skipped
    else if pending
    then invalid_data path
    else elim (s.parse_entry line) [ some entry ↦ visited entry | none ↦ held_back ]

-- The one line at the offset, parsed in full.
abbrev pub read_winner : Serde → String → Option Text → Result IngestError (Option Generation)
read_winner s path none = ok none
read_winner s path (some start) = elim (s.parse_generation (trim (first_line start))) [
  | some g ↦ ok (some g)
  | none ↦ invalid_data path
]

unfoldable pub read_last_matching :
    Serde → String → Wanted → File → Result IngestError (Option Generation)
read_last_matching s path wanted none = ok none
read_last_matching s path wanted (some content) =
    if is_legacy_format s (some content)
    then (parse_legacy s path content >>= λ m.
        ok (find_last (λ g. wanted (entry_of g)) m.generations))
    else (for_each_entry s path wanted false none (line_starts true content) >>= read_winner s path)

unfoldable pub load_latest_generation :
    Serde → String → File → Result IngestError (Option Generation)
load_latest_generation s path = read_last_matching s path (λ _. true)

unfoldable pub load_latest_full_generation :
    Serde → String → File → Result IngestError (Option Generation)
load_latest_full_generation s path = read_last_matching s path (λ entry. entry.backup_type == full)

unfoldable pub load_generation :
    Serde → String → File → String → Result IngestError (Option Generation)
load_generation s path file id = read_last_matching s path (λ entry. entry.id == id) file
