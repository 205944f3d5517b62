-- ===== src/GenerationRun/Made.antt =====
-- How the generations of a history and their folders came to be.
use rustcopy.Base.{
  ℕ, zero, suc, ◌<◌, ◌≤◌, ◌≡◌, ◌∙◌, refl, ap, String, true, none, some, List, [], ◌∷◌, ◌++◌, map,
  length, take, get_elem?, ◌==◌, string_eq, arith, Option-cases, inl, inr, ◌⊎◌,
}
use rustcopy.Generations.{
  BackupType, full, incremental, differential, backup_type_eq, ScannedFile, Generation, find_last,
  changed_since, to_generation_files,
}
use rustcopy.Generations.Changes.{NodupPaths}
use rustcopy.Generations.Retention.{type_of}
use rustcopy.GenerationRestore.{last_full}

abbrev pub Folder : Type 0
Folder = String → List ScannedFile

-- What is in the folder of generation `k` of its type, which saw the inventory.
abbrev pub CopiedAs :
    BackupType → List Generation → ℕ → List ScannedFile → List ScannedFile → Type 0
CopiedAs full gens k inventory copied = copied ≡ inventory
CopiedAs incremental gens k inventory copied =
    (j : ℕ) × (p : Generation) × (k ≡ suc j)
    × (get_elem? gens j ≡ some p)
    × (copied ≡ changed_since inventory p.files)
CopiedAs differential gens k inventory copied =
    (f : ℕ) × (p : Generation) × (last_full (take k (map type_of gens)) ≡ some f)
    × (get_elem? gens f ≡ some p)
    × (copied ≡ changed_since inventory p.files)

pub record MadeAt (folder : Folder) (gens : List Generation) (k : ℕ) (g : Generation) : Type 0 where
  pub inventory : List ScannedFile
  pub nodup : NodupPaths inventory
  pub listed : g.files ≡ to_generation_files inventory
  pub copied : CopiedAs g.backup_type gens k inventory (folder g.id)

-- Each generation of the history lists one scan and has the files in its folder that its type asks
-- for.
pub record Made (folder : Folder) (gens : List Generation) : Type 0 where
  pub at : (k : ℕ) (g : Generation) → get_elem? gens k ≡ some g → MadeAt folder gens k g

module _ {ℓ} {A : Type ℓ} where
  pub get_elem?-lt : (xs : List A) (k : ℕ) {x : A} → get_elem? xs k ≡ some x → k < length xs
  get_elem?-lt [] k h = cc
  get_elem?-lt (y ∷ xs) zero h = omega arith
  get_elem?-lt (y ∷ xs) (suc k) h = omega (arith, get_elem?-lt xs k h)

  pub get_elem?-append_left :
      (xs ys : List A) (k : ℕ) {x : A} → get_elem? xs k ≡ some x → get_elem? (xs ++ ys) k ≡ some x
  get_elem?-append_left [] ys k h = cc
  get_elem?-append_left (y ∷ xs) ys zero h = h
  get_elem?-append_left (y ∷ xs) ys (suc k) h = get_elem?-append_left xs ys k h

  pub take-append_left : (xs ys : List A) (k : ℕ) → k ≤ length xs → take k (xs ++ ys) ≡ take k xs
  take-append_left xs ys zero h = refl
  take-append_left [] ys (suc k) h = absurd (omega arith)
  take-append_left (x ∷ xs) ys (suc k) h = ap (λ t. x ∷ t) (take-append_left xs ys k (omega arith))

  pub get_elem?-snoc :
      (xs : List A) (y : A) (k : ℕ) {x : A}
      → get_elem? (xs ++ (y ∷ [])) k ≡ some x
      → (get_elem? xs k ≡ some x) ⊎ ((k ≡ length xs) × (x ≡ y))
  get_elem?-snoc [] y zero h = inr (refl, ground arith)
  get_elem?-snoc [] y (suc k) h = cc
  get_elem?-snoc (z ∷ xs) y zero h = inl h
  get_elem?-snoc (z ∷ xs) y (suc k) h = elim (get_elem?-snoc xs y k h) [
    | inl old ↦ inl old
    | inr (e, p) ↦ inr (ap suc e, p)
  ]

-- `latest` is the last position.
pub latest_place :
    (gens : List Generation) {g : Generation}
    → find_last (λ _. true) gens ≡ some g
    → (j : ℕ) × (length gens ≡ suc j) × (get_elem? gens j ≡ some g)
latest_place [] h = cc
latest_place (x ∷ []) h = (0, refl, h)
latest_place (x ∷ y ∷ gens) {g} h = elim (Option-cases (find_last (λ _. true) (y ∷ gens))) [
  | inl e ↦ absurd (ground (arith, e))
  | inr (z, e) ↦
      let (j, p, q) = latest_place (y ∷ gens) {g = z} e in (suc j, ap suc p, q ∙ ground (arith, e))
]

full_absent :
    (gens : List Generation)
    → find_last (λ x. x.backup_type == full) gens ≡ none
    → last_full (map type_of gens) ≡ none
full_absent [] h = refl
full_absent (x ∷ gens) h = elim (Option-cases (find_last (λ y. y.backup_type == full) gens)) [
  | inr (y, e) ↦ ground (arith, e)
  | inl e ↦ ground (arith, e, full_absent gens e)
]

-- `latest_full` is at the position that `last_full` finds.
pub full_place :
    (gens : List Generation) {g : Generation}
    → find_last (λ x. x.backup_type == full) gens ≡ some g
    → (f : ℕ) × (last_full (map type_of gens) ≡ some f) × (get_elem? gens f ≡ some g)
full_place [] h = cc
full_place (x ∷ gens) {g} h = elim (Option-cases (find_last (λ x. x.backup_type == full) gens)) [
  | inr (y, e) ↦
      let (f, p, q) = full_place gens {g = y} e in
      (suc f, ground (arith, p), q ∙ ground (arith, e, h))
  | inl e ↦ (0, ground (arith, e, h, full_absent gens e), ground (arith, e, h))
]
