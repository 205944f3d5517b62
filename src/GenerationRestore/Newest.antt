-- ===== src/GenerationRestore/Newest.antt =====
-- The map of the newest copies, and what `assign` reads from it.
use rustcopy.Base.{
  or_else, ℕ, suc, ◌+◌, ◌≡◌, ◌∙◌, refl, Option, none, some, List, [], ◌∷◌, ◌++◌, length, nat_eq,
  string_eq, list_eq, arith,
}
use native.Mathlib.Nat.{add-zero}
use rustcopy.Generations.{RelPath, ScannedFile}
use rustcopy.Generations.Changes.{scanned_at}
use rustcopy.GenerationRestore.{Newest, lookup_newest, insert_files, insert_folders}

abbrev pub at_position : ℕ → Option ScannedFile → Option (ℕ × ScannedFile)
at_position n none = none
at_position n (some f) = some (n, f)

-- The last folder that holds the path, counted from `n`, and the file it holds there.
abbrev pub newest_in : RelPath → ℕ → List (List ScannedFile) → Option (ℕ × ScannedFile)
newest_in path n [] = none
newest_in path n (files ∷ stored) =
    or_else (newest_in path (suc n) stored) (at_position n (scanned_at path files))

lookup-insert_files :
    (path : RelPath) (n : ℕ) (files : List ScannedFile) (newest : Newest)
    → lookup_newest path (insert_files n files newest)
      ≡ or_else (at_position n (scanned_at path files)) (lookup_newest path newest)
unfolding insert_files
lookup-insert_files path n [] newest = refl
lookup-insert_files path n (f ∷ files) newest =
    ground (arith, lookup-insert_files path n files ((f.relative_path, n, f) ∷ newest))

lookup-insert_folders :
    (path : RelPath) (n : ℕ) (stored : List (List ScannedFile)) (newest : Newest)
    → lookup_newest path (insert_folders n stored newest)
      ≡ or_else (newest_in path n stored) (lookup_newest path newest)
unfolding insert_folders
lookup-insert_folders path n [] newest = refl
lookup-insert_folders path n (files ∷ stored) newest = ground (
  arith,
  lookup-insert_folders path (suc n) stored (insert_files n files newest),
  lookup-insert_files path n files newest,
)

or_else_assoc {ℓ} :
    {A : Type ℓ} (a b c : Option A) → or_else (or_else a b) c ≡ or_else a (or_else b c)
or_else_assoc none b c = refl
or_else_assoc (some x) b c = refl

or_else-none {ℓ} : {A : Type ℓ} (a : Option A) → or_else a none ≡ a
or_else-none none = refl
or_else-none (some x) = refl

pub newest_in-snoc :
    (path : RelPath) (n : ℕ) (stored : List (List ScannedFile)) (files : List ScannedFile)
    → newest_in path n (stored ++ (files ∷ []))
      ≡ or_else (at_position (n + length stored) (scanned_at path files)) (newest_in path n stored)
newest_in-snoc path n [] files = rw add-zero (ground arith)
newest_in-snoc path n (f ∷ stored) files =
    let place : n + suc (length stored) ≡ suc n + length stored = omega arith in
    rw (place, newest_in-snoc path (suc n) stored files)
      (or_else_assoc (at_position (suc n + length stored) (scanned_at path files)) _ _)

-- The map holds for each path the newest copy: the one in the last folder that has the path.
pub lookup-newest_in :
    (path : RelPath) (stored : List (List ScannedFile))
    → lookup_newest path (insert_folders 0 stored []) ≡ newest_in path 0 stored
lookup-newest_in path stored =
    lookup-insert_folders path 0 stored [] ∙ or_else-none (newest_in path 0 stored)
