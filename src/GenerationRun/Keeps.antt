-- ===== src/GenerationRun/Keeps.antt =====
-- A new folder and a new generation keep a history well made.
use rustcopy.Base.{
  ℕ, zero, suc, ◌≤◌, ◌≡◌, ◌∙◌, refl, sym, ap, subst, String, false, Option, none, some, List, [],
  ◌∷◌, ◌++◌, map, length, take, get_elem?, contains, ◌==◌, string_eq, arith, inl, inr, ok,
}
use mathlib.Core.List.{map-append}
use rustcopy.Errors.{IngestError}
use rustcopy.Generations.{
  BackupType, full, incremental, differential, ScannedFile, Generation, GenerationManifest, latest,
  latest_full,
}
use rustcopy.Generations.Retention.{type_of, id_of}
use rustcopy.GenerationRestore.{last_full}
use rustcopy.GenerationRun.{
  RunError, no_prior, no_prior_full, found_or, Backup, Reference, whole, against, folder_in,
  reference_for, read_reference, files_to_copy,
}
use rustcopy.GenerationRun.Made.{
  Folder, CopiedAs, MadeAt, Made, get_elem?-lt, get_elem?-append_left, take-append_left,
  get_elem?-snoc, latest_place, full_place,
}
use rustcopy.GenerationRun.Pruned.{length-types}

abbrev pub history : Backup → List Generation
history b = b.manifest.generations

-- The id of a new run is not one of the history's.
abbrev pub IsFresh : String → List Generation → Type 0
IsFresh id gs = contains (map id_of gs) id ≡ false

fresh_ne :
    (id : String) (gs : List Generation) (k : ℕ) {g : Generation}
    → IsFresh id gs
    → get_elem? gs k ≡ some g
    → (id == g.id) ≡ false
fresh_ne id [] k f h = cc
fresh_ne id (x ∷ gs) zero {g} f h = ground arith
fresh_ne id (x ∷ gs) (suc k) {g} f h = fresh_ne id gs k {g = g} (ground arith) h

-- A folder beside those of the history changes none of them.
pub Made-folder :
    (fs : List (String × List ScannedFile)) (id : String) (x : List ScannedFile)
    (gs : List Generation)
    → IsFresh id gs
    → Made (folder_in fs) gs
    → Made (folder_in ((id, x) ∷ fs)) gs
Made-folder fs id x gs f m = record {
  at = λ k g h.
      let old = m.at k g h in
      let same : folder_in ((id, x) ∷ fs) g.id ≡ folder_in fs g.id =
        ground (arith, fresh_ne id gs k {g = g} f h) in
      record {
        inventory = old.inventory;
        nodup = old.nodup;
        listed = old.listed;
        copied = subst (CopiedAs g.backup_type gs k old.inventory) (sym same) old.copied;
      };
}

pub CopiedAs-snoc :
    (t : BackupType) (gs : List Generation) (n : Generation) (k : ℕ)
    (inventory copied : List ScannedFile)
    → k ≤ length gs
    → CopiedAs t gs k inventory copied
    → CopiedAs t (gs ++ (n ∷ [])) k inventory copied
CopiedAs-snoc full gs n k inventory copied le h = h
CopiedAs-snoc incremental gs n k inventory copied le (j, p, place, prior, e) =
    (j, p, place, get_elem?-append_left gs (n ∷ []) j prior, e)
CopiedAs-snoc differential gs n k inventory copied le (f, p, last, prior, e) = (
  f,
  p,
  ap last_full (
        ap (take k) (map-append type_of gs (n ∷ []))
        ∙ take-append_left (map type_of gs) _ k (omega (arith, length-types gs)))
      ∙ last,
  get_elem?-append_left gs (n ∷ []) f prior,
  e,
)

pub Made-snoc :
    (folder : Folder) (gs : List Generation) (n : Generation)
    → Made folder gs
    → MadeAt folder (gs ++ (n ∷ [])) (length gs) n
    → Made folder (gs ++ (n ∷ []))
Made-snoc folder gs n m new = record {
  at = λ k g h. elim (get_elem?-snoc gs n k {x = g} h) [
    | inl old ↦
        let was = m.at k g old in
        record {
          inventory = was.inventory;
          nodup = was.nodup;
          listed = was.listed;
          copied =
              CopiedAs-snoc g.backup_type gs n k was.inventory (folder g.id)
                (omega (arith, get_elem?-lt gs k {x = g} old)) was.copied;
        }
    | inr (e, p) ↦
        subst (λ i. MadeAt folder (gs ++ (n ∷ [])) i g) (sym e)
          (subst (MadeAt folder (gs ++ (n ∷ [])) (length gs)) (sym p) new)
  ];
}

-- A reference that was read is the one of the manifest.
pub read_reference-found :
    (fails : Option IngestError) (m : GenerationManifest) (t : BackupType) (r : Reference)
    → read_reference fails m t ≡ ok r
    → reference_for m t ≡ ok r
read_reference-found none m t r h = h
read_reference-found (some e) m full r h = h
read_reference-found (some e) m incremental r h = cc
read_reference-found (some e) m differential r h = cc

found_ne_whole : (o : Option Generation) (e : RunError) → found_or o e ≡ ok whole → ⊥
found_ne_whole none e h = cc
found_ne_whole (some g) e h = cc

found_against :
    (o : Option Generation) (e : RunError) {g : Generation}
    → found_or o e ≡ ok (against g)
    → o ≡ some g
found_against none e h = cc
found_against (some x) e h = cc

take-length {ℓ} : {A : Type ℓ} (xs : List A) → take (length xs) xs ≡ xs
take-length [] = refl
take-length (x ∷ xs) = ap (λ t. x ∷ t) (take-length xs)

-- What a run that copies everything puts into its folder.
pub CopiedAs-reference :
    (m : GenerationManifest) (t : BackupType) (r : Reference) (inventory : List ScannedFile)
    → reference_for m t ≡ ok r
    → CopiedAs t m.generations (length m.generations) inventory (files_to_copy r inventory)
unfolding reference_for latest latest_full
CopiedAs-reference m full whole inventory h = refl
CopiedAs-reference m full (against g) inventory h = cc
CopiedAs-reference m incremental whole inventory h = absurd (found_ne_whole (latest m) no_prior h)
CopiedAs-reference m incremental (against p) inventory h =
    let (j, place, there) =
      latest_place m.generations {g = p} (found_against (latest m) no_prior h) in
    (j, p, place, there, refl)
CopiedAs-reference m differential whole inventory h =
    absurd (found_ne_whole (latest_full m) no_prior_full h)
CopiedAs-reference m differential (against p) inventory h =
    let (f, last, there) =
      full_place m.generations {g = p} (found_against (latest_full m) no_prior_full h) in
    (
      f,
      p,
      ap last_full (
            ap (λ n. take n (map type_of m.generations)) (sym (length-types m.generations))
            ∙ take-length (map type_of m.generations))
          ∙ last,
      there,
      refl,
    )
