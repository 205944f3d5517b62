-- ===== src/GenerationRestore/Rebuild.antt =====
-- A restore rebuilds what the generation's run saw.
use rustcopy.Base.{
  ℕ, zero, suc, ◌≡◌, ◌∙◌, refl, sym, ap, subst, none, some, List, [], ◌∷◌, ◌++◌, map, take,
  get_elem?, arith, inl, inr, ok, Option-cases, Bool-cases, ◌>>=◌, eq_of_test, ◌==◌,
}
use rustcopy.Generations.{BackupType, full, incremental, differential, backup_type_eq, Generation}
use rustcopy.Generations.Retention.{type_of}
use rustcopy.GenerationRestore.{last_full, differential_chain, chain_for}
use rustcopy.GenerationRestore.Chain.{chain_for-full, chain_for-differential, chain_for-incremental}
use rustcopy.GenerationRestore.History.{Holds, Holds-full, Holds-snoc, Rebuilds, folder_at}
use rustcopy.GenerationRun.Made.{Folder, CopiedAs, Made}

some_injective {ℓ} : {A : Type ℓ} {a b : A} → some a ≡ some b → a ≡ b
some_injective h = cc

none_ne_some {ℓ} : {A : Type ℓ} {a : A} → none ≡ some a → ⊥
none_ne_some h = cc

get_elem?-map :
    (gens : List Generation) (k : ℕ) {g : Generation}
    → get_elem? gens k ≡ some g
    → get_elem? (map type_of gens) k ≡ some (type_of g)
get_elem?-map [] k h = cc
get_elem?-map (x ∷ gens) zero h = ground (arith, h)
get_elem?-map (x ∷ gens) (suc k) {g} h = get_elem?-map gens k {g = g} h

last_full-is_full :
    (types : List BackupType) {f : ℕ} → last_full types ≡ some f → get_elem? types f ≡ some full
last_full-is_full [] h = cc
last_full-is_full (t ∷ types) {f} h = elim (Option-cases (last_full types)) [
  | inr (i, e) ↦
      let place : f ≡ suc i = some_injective (sym h ∙ ground (arith, e)) in
      ap (get_elem? (t ∷ types)) place ∙ last_full-is_full types {f = i} e
  | inl e ↦ elim (Bool-cases (t == full)) [
    | inl same ↦
        let place : 0 ≡ f = some_injective (sym (ground (arith, e, same)) ∙ h) in
        ap (get_elem? (t ∷ types)) (sym place) ∙ ap some (eq_of_test t full same)
    | inr differ ↦ absurd (none_ne_some (sym (ground (arith, e, differ)) ∙ h))
  ]
]

get_elem?-take :
    (types : List BackupType) (k f : ℕ) {t : BackupType}
    → get_elem? (take k types) f ≡ some t
    → get_elem? types f ≡ some t
get_elem?-take types zero f h = cc
get_elem?-take [] (suc k) f h = cc
get_elem?-take (x ∷ types) (suc k) zero h = h
get_elem?-take (x ∷ types) (suc k) (suc f) {t} h = get_elem?-take types k f {t = t} h

module _ (folder : Folder) (gens : List Generation) (made : Made folder gens) where
  folder_at-lem :
      (k : ℕ) {g : Generation} → get_elem? gens k ≡ some g → folder_at folder gens k ≡ folder g.id
  folder_at-lem k {g} h = rw (h, folder_at) refl

  rebuild_full :
      (k : ℕ) (g : Generation)
      → get_elem? gens k ≡ some g
      → type_of g ≡ full
      → Holds folder gens (k ∷ []) g.files
  rebuild_full k g there is_full =
      let m = made.at k g there in
      Holds-full folder gens k g m.inventory m.listed (
        folder_at-lem k {g = g} there
        ∙ subst (λ t. CopiedAs t gens k m.inventory (folder g.id)) is_full m.copied)

  rebuild_as :
      (t : BackupType) (k : ℕ) (g : Generation)
      → get_elem? gens k ≡ some g
      → type_of g ≡ t
      → ((j : ℕ) (p : Generation)
          → k ≡ suc j
          → get_elem? gens j ≡ some p
          → Rebuilds folder gens j p)
      → Rebuilds folder gens k g
  rebuild_as full k g there e before = (
    k ∷ [],
    chain_for-full _ k (get_elem?-map gens k {g = g} there ∙ ap some e),
    rebuild_full k g there e,
  )
  rebuild_as incremental k g there e before =
      let m = made.at k g there in
      let (j, p, place, prior, copied) =
        subst (λ t. CopiedAs t gens k m.inventory (folder g.id)) e m.copied in
      let (shorter, chain, below) = before j p place prior in
      (
        shorter ++ (k ∷ []),
        ap (chain_for (map type_of gens)) place
            ∙ chain_for-incremental _ j (
                ap (get_elem? (map type_of gens)) (sym place)
                ∙ get_elem?-map gens k {g = g} there
                ∙ ap some e)
            ∙ ap (λ r. r >>= λ c. ok (c ++ (suc j ∷ []))) chain
            ∙ ap (λ x. ok (shorter ++ (x ∷ []))) (sym place),
        Holds-snoc folder gens shorter k g p m.inventory m.nodup m.listed
            (folder_at-lem k {g = g} there ∙ copied) below,
      )
  rebuild_as differential k g there e before =
      let m = made.at k g there in
      let (f, p, last, prior, copied) =
        subst (λ t. CopiedAs t gens k m.inventory (folder g.id)) e m.copied in
      let is_full =
        sym (get_elem?-map gens f {g = p} prior)
        ∙ get_elem?-take (map type_of gens) k f {t = full} (last_full-is_full _ last) in
      (
        f ∷ k ∷ [],
        chain_for-differential _ k (get_elem?-map gens k {g = g} there ∙ ap some e)
            ∙ ap (λ o. differential_chain o k) last,
        Holds-snoc folder gens (f ∷ []) k g p m.inventory m.nodup m.listed
            (folder_at-lem k {g = g} there ∙ copied)
            (rebuild_full f p prior (some_injective is_full)),
      )

  -- Of a well made history every generation has a chain, and for each file that the generation
  -- listed the newest copy in the folders of the chain has the listed size and time.
  pub rebuild : (k : ℕ) (g : Generation) → get_elem? gens k ≡ some g → Rebuilds folder gens k g
  rebuild zero g there = rebuild_as (type_of g) zero g there refl (λ j p e h. absurd (omega arith))
  rebuild (suc k) g there = rebuild_as (type_of g) (suc k) g there refl (λ j p e h.
      let same : k ≡ j = omega arith in
      subst (λ i. Rebuilds folder gens i p) same (rebuild k p (ap (get_elem? gens) same ∙ h)))
