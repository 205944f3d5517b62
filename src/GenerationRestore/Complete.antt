-- ===== src/GenerationRestore/Complete.antt =====
-- From the runs to the restore: what a sound history can give back.
use rustcopy.Base.{
  ℕ, String, false, ◌++◌, contains, inl, ◌≡◌, ◌∙◌, refl, sym, ap, subst, none, some, List, [], ◌∷◌,
  map, get_elem?, arith, All, ok, nat_eq, eq_self, list_eq, string_eq,
}
use rustcopy.Generations.{
  ScannedFile, GenerationFile, Generation, file_at, to_generation_file, to_generation_files,
}
use rustcopy.Generations.Changes.{NodupPaths, scanned_at, to_file?, file_at-to_generation_files}
use rustcopy.Generations.Retention.{type_of}
use rustcopy.GenerationRestore.{Newest, lookup_newest, chain_for, source_of, assign}
use rustcopy.GenerationRestore.Newest.{lookup-newest_in}
use rustcopy.GenerationRestore.History.{Holds, stored, SameVersion}
use rustcopy.GenerationRestore.Behind.{IsReadable, rebuild_behind}
use rustcopy.GenerationRestore.Assign.{unsupplied, newest_of, assign_missing}
use rustcopy.GenerationRun.{Backup, Run, folder_in, execute}
use rustcopy.GenerationRun.Sound.{IsRequest, execute-IsSound}
use rustcopy.GenerationRun.Purging.{IsSound, lost_by}
use rustcopy.GenerationRun.Keeps.{history, IsFresh}

none_ne_some {ℓ} : {A : Type ℓ} {a : A} → none ≡ some a → ⊥
none_ne_some h = cc

-- Found at its own path, a listed file is itself.
abbrev Found : List ScannedFile → ScannedFile → Type 0
Found files f = scanned_at f.relative_path files ≡ some f

Found-cons :
    (g : ScannedFile) (files fs : List ScannedFile)
    → All (Found files) fs
    → All (Found (g ∷ files)) fs
Found-cons g files [] h = tt
Found-cons g files (f ∷ fs) (a, h) = (ground (arith, a), Found-cons g files fs h)

All-Found : (files : List ScannedFile) → NodupPaths files → All (Found files) files
All-Found [] h = tt
All-Found (f ∷ files) (new, h) =
    (ground (arith, new, eq_self f.relative_path), Found-cons f files files (All-Found files h))

-- The file is taken from the folder at a place of the chain, in the version that was listed.
abbrev pub Supplied : Newest → GenerationFile → Type 0
Supplied newest w =
    (n : ℕ) × (held : ScannedFile) × (source_of newest w ≡ some (n, held)) × SameVersion w held

supply :
    (newest : Newest) (w : GenerationFile) (n : ℕ) (held : ScannedFile)
    → lookup_newest w.relative_path newest ≡ some (n, held)
    → SameVersion w held
    → Supplied newest w
unfolding source_of
supply newest w n held e v = (n, held, ground (arith, e), v)

All-Supplied :
    (newest : Newest) (inventory files : List ScannedFile)
    → All (Found inventory) files
    → ((w : GenerationFile)
        → file_at w.relative_path (to_generation_files inventory) ≡ some w
        → Supplied newest w)
    → All (Supplied newest) (to_generation_files files)
unfolding to_generation_files
All-Supplied newest inventory [] found h = tt
All-Supplied newest inventory (f ∷ files) (a, found) h = (
  h (to_generation_file f) (file_at-to_generation_files f.relative_path inventory ∙ ap to_file? a),
  All-Supplied newest inventory files found h,
)

unsupplied-nil :
    (newest : Newest) (files : List GenerationFile)
    → All (Supplied newest) files
    → unsupplied newest files ≡ []
unsupplied-nil newest [] h = refl
unsupplied-nil newest (w ∷ files) ((n, held, e, v), h) = rw e (unsupplied-nil newest files h)

Holds-Supplied :
    (folder : String → List ScannedFile) (gens : List Generation) (chain : List ℕ)
    (files : List GenerationFile)
    → Holds folder gens chain files
    → (w : GenerationFile) → file_at w.relative_path files ≡ some w
    → Supplied (newest_of (stored folder gens chain)) w
Holds-Supplied folder gens chain files h w found =
    let (n, held, there, version) = h w.relative_path w found in
    supply _ w n held (lookup-newest_in w.relative_path (stored folder gens chain) ∙ there) version

-- Of a sound history every generation that is not lost can be restored in full: its chain is found,
-- no listed file is reported missing, and each is taken from a folder of the chain whose copy has
-- the listed size and was made from a source file with the listed time.
pub restore_complete :
    (b : Backup) (lost : List String) (k : ℕ) (g : Generation)
    → IsSound b lost
    → get_elem? (history b) k ≡ some g
    → contains lost g.id ≡ false
    → (chain : List ℕ) × (chain_for (map type_of (history b)) k ≡ ok chain)
      × All (IsReadable (history b) lost) chain
      × ((assign g.files (stored (folder_in b.folders) (history b) chain)).1 ≡ [])
      × All (Supplied (newest_of (stored (folder_in b.folders) (history b) chain))) g.files
restore_complete b lost k g s there kept =
    let m = rebuild_behind (folder_in b.folders) (history b) lost k g s there kept in
    let held = newest_of (stored (folder_in b.folders) (history b) m.chain) in
    let all : All (Supplied held) g.files = subst (All (Supplied held)) (sym m.listed) (
      All-Supplied held m.inventory m.inventory (All-Found m.inventory m.nodup) (λ w e.
        Holds-Supplied (folder_in b.folders) (history b) m.chain g.files m.holds w
          (ap (file_at w.relative_path) m.listed ∙ e))) in
    (
      m.chain,
      m.found,
      m.readable,
      assign_missing g.files (stored (folder_in b.folders) (history b) m.chain)
          ∙ unsupplied-nil held g.files all,
      all,
    )

-- The backups that runs can make of an empty destination, with the ids that the purges which failed
-- were to delete.
pub data Reachable : Backup → List String → Type 0 where
  empty : Reachable (record { manifest = record { generations = [] }; folders = [] }) []
  run :
      {b : Backup} {lost : List String} (r : Run)
      → Reachable b lost
      → IsFresh r.id (history b)
      → contains lost r.id ≡ false
      → IsRequest r
      → Reachable (execute b r).1 (lost ++ lost_by (execute b r) r.keep_generations)

pub Reachable-IsSound : {b : Backup} {lost : List String} → Reachable b lost → IsSound b lost
Reachable-IsSound empty = record {
  pre = [];
  live = [];
  whole = refl;
  ids = tt;
  cut = inl refl;
  gone = tt;
  apart = tt;
  made = record { at = λ k g h. absurd (none_ne_some h) };
}
Reachable-IsSound (run {b = b} {lost = lost} r before fresh new asked) =
    execute-IsSound b r lost fresh new asked (Reachable-IsSound before)
