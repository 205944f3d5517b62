-- ===== src/GenerationRestore/Sources.antt =====
-- `assign` against the folders themselves: which of them a listed file is taken from.
use rustcopy.Base.{
  or_else, ℕ, zero, suc, ◌+◌, ◌<◌, ◌≡◌, ◌∙◌, refl, sym, ap, subst, true, false, Option, none, some,
  List, [], ◌∷◌, ◌++◌, length, get_elem?, arith, ◌==◌, nat_eq, string_eq, list_eq, eq_of_test,
  eq_self, Bool-cases, Option-cases, inl, inr, if◌then◌else◌,
}
use native.Mathlib.Nat.{zero-add}
use rustcopy.Generations.{RelPath, ScannedFile, GenerationFile}
use rustcopy.Generations.Changes.{scanned_at}
use rustcopy.GenerationRestore.{source_of, assign}
use rustcopy.GenerationRestore.Newest.{newest_in, at_position, lookup-newest_in}
use rustcopy.GenerationRestore.Assign.{
  taken_one, taken, unsupplied_one, unsupplied, newest_of, assign_newest,
}

-- No folder holds the path.
abbrev pub HoldsNowhere : RelPath → List (List ScannedFile) → Type 0
HoldsNowhere path [] = Unit
HoldsNowhere path (files ∷ stored) = (scanned_at path files ≡ none) × HoldsNowhere path stored

-- The folder at the position holds the file at the path, and no later one holds the path.
abbrev pub HoldsLast : RelPath → List (List ScannedFile) → ℕ → ScannedFile → Type 0
HoldsLast path [] n held = ⊥
HoldsLast path (files ∷ stored) zero held =
    (scanned_at path files ≡ some held) × HoldsNowhere path stored
HoldsLast path (files ∷ stored) (suc n) held = HoldsLast path stored n held

newest_in-nowhere :
    (path : RelPath) (n : ℕ) (stored : List (List ScannedFile))
    → HoldsNowhere path stored
    → newest_in path n stored ≡ none
newest_in-nowhere path n [] h = refl
newest_in-nowhere path n (files ∷ stored) (a, h) =
    ap (λ o. or_else o (at_position n (scanned_at path files)))
      (newest_in-nowhere path (suc n) stored h)
    ∙ ap (at_position n) a

newest_in-last :
    (path : RelPath) (n k : ℕ) (stored : List (List ScannedFile)) (held : ScannedFile)
    → HoldsLast path stored k held
    → newest_in path n stored ≡ some (n + k, held)
newest_in-last path n k [] held h = absurd h
newest_in-last path n zero (files ∷ stored) held (a, h) =
    let here : n ≡ n + 0 = omega arith in
    ap (λ o. or_else o (at_position n (scanned_at path files)))
      (newest_in-nowhere path (suc n) stored h)
    ∙ ap (at_position n) a
    ∙ ap (λ m. some (m, held)) here
newest_in-last path n (suc k) (files ∷ stored) held h =
    let later : suc n + k ≡ n + suc k = omega arith in
    ap (λ o. or_else o (at_position n (scanned_at path files)))
      (newest_in-last path (suc n) k stored held h)
    ∙ ap (λ m. some (m, held)) later

nowhere-newest_in :
    (path : RelPath) (n : ℕ) (stored : List (List ScannedFile))
    → newest_in path n stored ≡ none
    → HoldsNowhere path stored
nowhere-newest_in path n [] h = tt
nowhere-newest_in path n (files ∷ stored) h = elim (Option-cases (newest_in path (suc n) stored)) [
  | inr (x, e) ↦ absurd (ground (arith, h, e))
  | inl rest ↦ elim (Option-cases (scanned_at path files)) [
    | inr (f, e) ↦ absurd (ground (arith, h, e, rest))
    | inl gone ↦ (gone, nowhere-newest_in path (suc n) stored rest)
  ]
]

some_injective {ℓ} : {A : Type ℓ} {a b : A} → some a ≡ some b → a ≡ b
some_injective h = cc

last-newest_in :
    (path : RelPath) (n m : ℕ) (stored : List (List ScannedFile)) (held : ScannedFile)
    → newest_in path n stored ≡ some (m, held)
    → (k : ℕ) × (m ≡ n + k) × HoldsLast path stored k held
last-newest_in path n m [] held h = cc
last-newest_in path n m (files ∷ stored) held h =
    elim (Option-cases (newest_in path (suc n) stored)) [
      | inr ((m', held'), e) ↦
          let same : (m', held') ≡ (m, held) =
            some_injective
              (sym (ap (λ o. or_else o (at_position n (scanned_at path files))) e) ∙ h) in
          let (k, place, last) =
            last-newest_in path (suc n) m stored held (e ∙ ap (λ x. some x) same) in
          (suc k, omega (arith, place), last)
      | inl rest ↦ elim (Option-cases (scanned_at path files)) [
        | inl gone ↦ absurd (ground (arith, h, gone, rest))
        | inr (f, e) ↦
            let same : (n, f) ≡ (m, held) = some_injective (
              sym (
                ap (λ o. or_else o (at_position n (scanned_at path files))) rest
                ∙ ap (at_position n) e)
              ∙ h) in
            (
              0,
              sym (ap (λ (x : ℕ × ScannedFile). x.0) same) ∙ omega arith,
              (
                e ∙ ap (λ x. some x) (ap (λ (x : ℕ × ScannedFile). x.1) same),
                nowhere-newest_in path (suc n) stored rest,
              ),
            )
      ]
    ]

-- Where a listed file is: the last folder that holds its path holds it in the listed size; or there
-- is no such folder.
abbrev pub IsSource : List (List ScannedFile) → GenerationFile → Option (ℕ × ScannedFile) → Type 0
IsSource stored wanted (some (n, held)) =
    HoldsLast wanted.relative_path stored n held × (held.size_bytes ≡ wanted.size_bytes)
IsSource stored wanted none =
    (n : ℕ) (held : ScannedFile)
    → ¬ (HoldsLast wanted.relative_path stored n held × (held.size_bytes ≡ wanted.size_bytes))

abbrev pub Sources :
    List (List ScannedFile) → List GenerationFile → List (Option (ℕ × ScannedFile)) → Type 0
Sources stored [] [] = Unit
Sources stored [] (o ∷ sources) = ⊥
Sources stored (w ∷ listing) [] = ⊥
Sources stored (w ∷ listing) (o ∷ sources) = IsSource stored w o × Sources stored listing sources

-- The files whose source is one folder.
abbrev pub from_folder : ℕ → List (Option (ℕ × ScannedFile)) → List ScannedFile
from_folder i [] = []
from_folder i (none ∷ sources) = from_folder i sources
from_folder i (some (n, held) ∷ sources) =
    let rest = from_folder i sources in if n == i then held ∷ rest else rest

-- The paths of the listed files without a source.
abbrev pub without_source : List GenerationFile → List (Option (ℕ × ScannedFile)) → List RelPath
without_source [] sources = []
without_source (w ∷ listing) [] = []
without_source (w ∷ listing) (none ∷ sources) = w.relative_path ∷ without_source listing sources
without_source (w ∷ listing) (some x ∷ sources) = without_source listing sources

none_ne_some {ℓ} : {A : Type ℓ} {a : A} → none ≡ some a → ⊥
none_ne_some h = cc

true≢false : true ≡ false → ⊥
true≢false h = cc

source_of-IsSource :
    (stored : List (List ScannedFile)) (w : GenerationFile)
    → IsSource stored w (source_of (newest_of stored) w)
unfolding source_of
source_of-IsSource stored w =
    let looked = lookup-newest_in w.relative_path stored in
    elim (Option-cases (newest_in w.relative_path 0 stored)) [
      | inl absent ↦
          rw (looked ∙ absent, source_of)
            (λ n held h.
              none_ne_some (sym absent ∙ newest_in-last w.relative_path 0 n stored held h.0))
      | inr ((m, held), there) ↦
          let (k, place, last) = last-newest_in w.relative_path 0 m stored held there in
          elim (Bool-cases (held.size_bytes == w.size_bytes)) [
            | inl same ↦
                rw (looked ∙ there, source_of, same)
                  (
                    subst (λ i. HoldsLast w.relative_path stored i held) (sym (place ∙ zero-add k))
                        last,
                    eq_of_test held.size_bytes w.size_bytes same,
                  )
            | inr other ↦
                rw (looked ∙ there, source_of, other)
                  (λ n held' h.
                    let two : (m, held) ≡ (0 + n, held') =
                      some_injective
                        (sym there ∙ newest_in-last w.relative_path 0 n stored held' h.0) in
                    let size : held.size_bytes ≡ w.size_bytes =
                      ap (λ (x : ℕ × ScannedFile). x.1.size_bytes) two ∙ h.1 in
                    true≢false
                      (sym (ap (λ b. b == w.size_bytes) size ∙ eq_self w.size_bytes) ∙ other))
          ]
    ]

-- The source of each listed file.
sources_of : List (List ScannedFile) → List GenerationFile → List (Option (ℕ × ScannedFile))
sources_of stored [] = []
sources_of stored (w ∷ listing) = source_of (newest_of stored) w ∷ sources_of stored listing

sources_of-Sources :
    (stored : List (List ScannedFile)) (listing : List GenerationFile)
    → Sources stored listing (sources_of stored listing)
unfolding sources_of
sources_of-Sources stored [] = tt
sources_of-Sources stored (w ∷ listing) =
    (source_of-IsSource stored w, sources_of-Sources stored listing)

taken_one-from_folder :
    (i : ℕ) (o : Option (ℕ × ScannedFile)) (sources : List (Option (ℕ × ScannedFile)))
    → taken_one i o ++ from_folder i sources ≡ from_folder i (o ∷ sources)
taken_one-from_folder i none sources = refl
taken_one-from_folder i (some (n, held)) sources = ground arith

taken-from_folder :
    (stored : List (List ScannedFile)) (i : ℕ) (listing : List GenerationFile)
    → taken (newest_of stored) i listing ≡ from_folder i (sources_of stored listing)
unfolding sources_of
taken-from_folder stored i [] = refl
taken-from_folder stored i (w ∷ listing) =
    ap (λ l. taken_one i (source_of (newest_of stored) w) ++ l) (taken-from_folder stored i listing)
    ∙ taken_one-from_folder i (source_of (newest_of stored) w) (sources_of stored listing)

unsupplied_one-without_source :
    (w : GenerationFile) (o : Option (ℕ × ScannedFile)) (listing : List GenerationFile)
    (sources : List (Option (ℕ × ScannedFile)))
    → unsupplied_one w.relative_path o ++ without_source listing sources
      ≡ without_source (w ∷ listing) (o ∷ sources)
unsupplied_one-without_source w none listing sources = refl
unsupplied_one-without_source w (some x) listing sources = refl

unsupplied-without_source :
    (stored : List (List ScannedFile)) (listing : List GenerationFile)
    → unsupplied (newest_of stored) listing ≡ without_source listing (sources_of stored listing)
unfolding sources_of
unsupplied-without_source stored [] = refl
unsupplied-without_source stored (w ∷ listing) =
    ap (λ l. unsupplied_one w.relative_path (source_of (newest_of stored) w) ++ l)
      (unsupplied-without_source stored listing)
    ∙ unsupplied_one-without_source w (source_of (newest_of stored) w) listing
        (sources_of stored listing)

-- Each listed file has a source, the last folder that holds its path, if that folder holds it in the
-- listed size, and otherwise none. The step of each folder is, in the order of the listing, the
-- copies of the files whose source it is; the missing paths are those of the files without a source,
-- in their order.
pub assign_lem :
    (listing : List GenerationFile) (stored : List (List ScannedFile)) (i : ℕ)
    → i < length stored
    → (sources : List (Option (ℕ × ScannedFile))) × Sources stored listing sources
      × (get_elem? (assign listing stored).0 i ≡ some (from_folder i sources))
      × ((assign listing stored).1 ≡ without_source listing sources)
assign_lem listing stored i h =
    let (step, missing) = assign_newest listing stored i h in
    (
      sources_of stored listing,
      sources_of-Sources stored listing,
      step ∙ ap (λ l. some l) (taken-from_folder stored i listing),
      missing ∙ unsupplied-without_source stored listing,
    )
