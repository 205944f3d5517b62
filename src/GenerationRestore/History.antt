-- ===== src/GenerationRestore/History.antt =====
-- The folders of a generation's chain hold what the generation listed.
use rustcopy.Base.{
  or_else, ℕ, ◌+◌, ◌≡◌, ◌∙◌, sym, ap, none, some, List, [], ◌∷◌, ◌++◌, map, length, get_elem?,
  arith, inl, inr, ok, Option-cases,
}
use mathlib.Core.List.{map-append}
use rustcopy.Generations.{
  RelPath, ScannedFile, GenerationFile, Generation, changed_since, to_generation_files, file_at,
  is_changed,
}
use rustcopy.Generations.Changes.{
  scanned_at, NodupPaths, file_at-to_generation_files, scanned_at-changed_since, path-scanned_at,
  keep_found_cases, unchanged_prior,
}
use rustcopy.Generations.Retention.{type_of}
use rustcopy.GenerationRestore.{chain_for}
use rustcopy.GenerationRestore.Newest.{newest_in, newest_in-snoc, at_position}
use rustcopy.GenerationRun.Made.{Folder}

-- The copy has the size and the time that the listing gives.
abbrev pub SameVersion : GenerationFile → ScannedFile → Type 0
SameVersion w held =
    (held.size_bytes ≡ w.size_bytes) × (held.modified_timestamp ≡ w.modified_timestamp)

module _ (folder : Folder) (gens : List Generation) where
  abbrev pub folder_at : ℕ → List ScannedFile
  folder_at k = elim (get_elem? gens k) [ none ↦ [] | some g ↦ folder g.id ]

  abbrev pub stored : List ℕ → List (List ScannedFile)
  stored = map folder_at

  -- Behind the path of each listed file the chain's newest copy is the listed version.
  abbrev pub Holds : List ℕ → List GenerationFile → Type 0
  Holds chain files =
      (path : RelPath) (w : GenerationFile)
      → file_at path files ≡ some w
      → (n : ℕ) × (held : ScannedFile) × (newest_in path 0 (stored chain) ≡ some (n, held))
        × SameVersion w held

  abbrev pub Rebuilds : ℕ → Generation → Type 0
  Rebuilds k g =
      (chain : List ℕ) × (chain_for (map type_of gens) k ≡ ok chain) × Holds chain g.files

  -- A listed file is the scanned one at its path.
  listed_scan :
      (inventory : List ScannedFile) (files : List GenerationFile) (path : RelPath)
      {w : GenerationFile}
      → files ≡ to_generation_files inventory
      → file_at path files ≡ some w
      → (v : ScannedFile) × (scanned_at path inventory ≡ some v) × SameVersion w v
  listed_scan inventory files path {w} e h =
      let found =
        sym (file_at-to_generation_files path inventory) ∙ ap (file_at path) (sym e) ∙ h in
      elim (Option-cases (scanned_at path inventory)) [
        | inl absent ↦ absurd (ground (arith, absent, found))
        | inr (v, there) ↦ (v, there, (ground (arith, there, found), ground (arith, there, found)))
      ]

  newest_in-one :
      (k : ℕ) (path : RelPath) (v : ScannedFile)
      → scanned_at path (folder_at k) ≡ some v
      → newest_in path 0 (stored (k ∷ [])) ≡ some (0, v)
  newest_in-one k path v h = ground (arith, h)

  pub Holds-full :
      (k : ℕ) (g : Generation) (inventory : List ScannedFile)
      → g.files ≡ to_generation_files inventory
      → folder_at k ≡ inventory
      → Holds (k ∷ []) g.files
  Holds-full k g inventory listed copied path w h =
      let (v, there, same) = listed_scan inventory g.files path {w = w} listed h in
      (0, v, newest_in-one k path v (ap (scanned_at path) copied ∙ there), same)

  -- One more folder, with what changed against a listing that the shorter chain holds.
  pub Holds-snoc :
      (shorter : List ℕ) (k : ℕ) (g p : Generation) (inventory : List ScannedFile)
      → NodupPaths inventory
      → g.files ≡ to_generation_files inventory
      → folder_at k ≡ changed_since inventory p.files
      → Holds shorter p.files
      → Holds (shorter ++ (k ∷ [])) g.files
  Holds-snoc shorter k g p inventory nodup listed copied below path w h =
      let (v, there, same) = listed_scan inventory g.files path {w = w} listed h in
      let here = path-scanned_at path inventory {f = v} there in
      let kept =
        ap (scanned_at path) copied ∙ scanned_at-changed_since path inventory p.files nodup in
      let split =
        ap (newest_in path 0) (map-append folder_at shorter (k ∷ []))
        ∙ newest_in-snoc path 0 (stored shorter) (folder_at k) in
      elim (keep_found_cases (λ f. is_changed (file_at f.relative_path p.files) f) _ v there) [
        | inl changed ↦ (
          0 + length (stored shorter),
          v,
          split
              ∙ ap
                  (λ o.
                    or_else (at_position (0 + length (stored shorter)) o)
                      (newest_in path 0 (stored shorter)))
                  (kept ∙ changed),
          same,
        )
        | inr (absent, unchanged) ↦
            let (prior, was, size, time) = unchanged_prior p.files v unchanged in
            let (n, held, old, version) =
              below path prior (ap (λ x. file_at x p.files) (sym here) ∙ was) in
            (
              n,
              held,
              split
                  ∙ ap
                      (λ o.
                        or_else (at_position (0 + length (stored shorter)) o)
                          (newest_in path 0 (stored shorter)))
                      (kept ∙ absent)
                  ∙ old,
              (version.0 ∙ size ∙ same.0, version.1 ∙ time ∙ same.1),
            )
      ]
