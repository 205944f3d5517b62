-- ===== src/Moves/CopiedTo.antt =====
-- Where a move expects the copy of a file.
use rustcopy.Base.{
  ◌≡◌, refl, ap, Bool, true, false, String, none, some, [], ◌∷◌, ◌++◌, Bool-cases, Option-cases,
  inl, inr, ◌==◌, string_eq, eq_of_test, eq_self, arith,
}
use mathlib.Core.Path.{ap₂}
use rustcopy.Generations.{RelPath, find_last}
use rustcopy.Moves.{strip_prefix}
use rustcopy.Moves.Planning.{dest_of}

-- The path that a file of a source folder was copied to: a source that is one file went into the
-- destination by its name, and a file of a folder to its place below the folder.
abbrev pub CopiedTo : Bool → RelPath → RelPath → RelPath → RelPath → Type 0
CopiedTo true source_root dest_root path dest =
    (parents : RelPath) × (name : String) × (path ≡ parents ++ (name ∷ []))
    × (dest ≡ dest_root ++ (name ∷ []))
CopiedTo false source_root dest_root path dest =
    (relative : RelPath) × (path ≡ source_root ++ relative) × (dest ≡ dest_root ++ relative)

last_name :
    (path : RelPath) (name : String)
    → find_last (λ _. true) path ≡ some name
    → (parents : RelPath) × (path ≡ parents ++ (name ∷ []))
last_name [] name h = cc
last_name (x ∷ path) name h = elim (Option-cases (find_last (λ _. true) path)) [
  | inl absent ↦ ([], alone path absent (ground (arith, h, absent)))
  | inr (y, found) ↦
      let (parents, e) = last_name path name (ground (arith, h, found)) in
      (x ∷ parents, ap (λ l. x ∷ l) e)
]
  where
    alone : (rest : RelPath) → find_last (λ _. true) rest ≡ none → x ≡ name → x ∷ rest ≡ name ∷ []
    alone [] absent e = ap (λ n. n ∷ []) e
    alone (z ∷ rest) absent e = elim (Option-cases (find_last (λ _. true) rest)) [
      | inl gone ↦ absurd (ground (arith, absent, gone))
      | inr (w, found) ↦ absurd (ground (arith, absent, found))
    ]

strip_prefix-append :
    (path root relative : RelPath)
    → strip_prefix path root ≡ some relative
    → path ≡ root ++ relative
strip_prefix-append path [] relative h = cc
strip_prefix-append [] (r ∷ root) relative h = cc
strip_prefix-append (p ∷ path) (r ∷ root) relative h = elim (Bool-cases (p == r)) [
  | inl same ↦
      ap₂ (λ (a : String) (l : RelPath). a ∷ l) (eq_of_test p r same)
        (strip_prefix-append path root relative (ground (arith, h, same)))
  | inr differs ↦ absurd (ground (arith, h, differs))
]

pub dest_of-CopiedTo :
    (root_is_file : Bool) (source_root dest_root path dest : RelPath)
    → dest_of root_is_file source_root dest_root path ≡ some dest
    → CopiedTo root_is_file source_root dest_root path dest
unfolding dest_of
dest_of-CopiedTo true source_root dest_root path dest h =
    elim (Option-cases (find_last (λ _. true) path)) [
      | inl absent ↦ absurd (ground (arith, h, absent))
      | inr (name, found) ↦
          let (parents, e) = last_name path name found in
          (parents, name, e, ground (arith, h, found))
    ]
dest_of-CopiedTo false source_root dest_root path dest h =
    elim (Option-cases (strip_prefix path source_root)) [
      | inl absent ↦ absurd (ground (arith, h, absent))
      | inr (relative, found) ↦
          (relative, strip_prefix-append path source_root relative found, ground (arith, h, found))
    ]

find_last-snoc :
    (parents : RelPath) (name : String) → find_last (λ _. true) (parents ++ (name ∷ [])) ≡ some name
find_last-snoc [] name = refl
find_last-snoc (x ∷ parents) name = rw (find_last-snoc parents name) refl

append-strip_prefix :
    (root relative : RelPath) → strip_prefix (root ++ relative) root ≡ some relative
append-strip_prefix [] [] = refl
append-strip_prefix [] (x ∷ relative) = refl
append-strip_prefix (r ∷ root) relative = rw (eq_self r, append-strip_prefix root relative) refl

-- The path is one, and the code finds it.
pub CopiedTo-dest_of :
    (root_is_file : Bool) (source_root dest_root path dest : RelPath)
    → CopiedTo root_is_file source_root dest_root path dest
    → dest_of root_is_file source_root dest_root path ≡ some dest
unfolding dest_of
CopiedTo-dest_of true source_root dest_root path dest (parents, name, e, d) =
    rw (e, d, find_last-snoc parents name) refl
CopiedTo-dest_of false source_root dest_root path dest (relative, e, d) =
    rw (e, d, append-strip_prefix source_root relative) refl
