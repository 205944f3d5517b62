-- ===== src/GenerationRun/Pruned.antt =====
-- Taking a prefix off a history leaves a history.
use rustcopy.Base.{
  ℕ, zero, suc, ◌+◌, ◌≡◌, ◌∙◌, refl, sym, ap, subst, none, some, List, [], ◌∷◌, ◌++◌, map, length,
  take, get_elem?, string_eq, arith, inl, inr,
}
use mathlib.Core.List.{map-append}
use rustcopy.Generations.{BackupType, full, incremental, differential, ScannedFile, Generation}
use rustcopy.Generations.Retention.{type_of}
use rustcopy.Generations.Index.{CutsWell}
use rustcopy.GenerationRestore.{last_full}
use rustcopy.GenerationRestore.Chain.{
  get_elem?-append, take-length_add, last_full-append, last_full_of_full,
}
use rustcopy.GenerationRun.Made.{Folder, CopiedAs, Made}

pub length-types : (gs : List Generation) → length (map type_of gs) ≡ length gs
length-types [] = refl
length-types (g ∷ gs) = ap suc (length-types gs)

suc_injective : {a b : ℕ} → suc a ≡ suc b → a ≡ b
suc_injective h = omega arith

some_injective {ℓ} : {A : Type ℓ} {a b : A} → some a ≡ some b → a ≡ b
some_injective h = cc

full_ne_incremental : full ≡ incremental → ⊥
full_ne_incremental h = cc

full_ne_differential : full ≡ differential → ⊥
full_ne_differential h = cc

module _ (pre : List Generation) (g : Generation) (rest : List Generation)
    (starts : type_of g ≡ full) where
  abbrev behind : List Generation
  behind = g ∷ rest

  types_split : map type_of (pre ++ behind) ≡ map type_of pre ++ (full ∷ map type_of rest)
  types_split =
      map-append type_of pre behind ∙ ap (λ x. map type_of pre ++ (x ∷ map type_of rest)) starts

  -- Where the last full generation before position `k` of what was behind stands.
  full_in_kept :
      (k f : ℕ)
      → last_full (take (length pre + suc k) (map type_of (pre ++ behind))) ≡ some f
      → (f' : ℕ) × (last_full (take (suc k) (map type_of behind)) ≡ some f') × (f ≡ length pre + f')
  full_in_kept k f h =
      let (f', e) = last_full_of_full (take k (map type_of rest)) in
      let there : take (length pre + suc k) (map type_of (pre ++ behind))
          ≡ map type_of pre ++ (full ∷ take k (map type_of rest)) =
        ap (take (length pre + suc k)) types_split
        ∙ ap (λ n. take (n + suc k) (map type_of pre ++ (full ∷ map type_of rest)))
            (sym (length-types pre))
        ∙ take-length_add (map type_of pre) (full ∷ map type_of rest) (suc k) in
      (
        f',
        ap (λ x. last_full (x ∷ take k (map type_of rest))) starts ∙ e,
        some_injective (
            sym h
            ∙ ap last_full there
            ∙ last_full-append (map type_of pre) (full ∷ take k (map type_of rest)) e
            ∙ ap (λ n. some (n + f')) (length-types pre)),
      )

  pub CopiedAs-kept :
      (t : BackupType) (k : ℕ) (inventory copied : List ScannedFile)
      → (k ≡ 0 → t ≡ full)
      → CopiedAs t (pre ++ behind) (length pre + k) inventory copied
      → CopiedAs t behind k inventory copied
  CopiedAs-kept full k inventory copied z h = h
  CopiedAs-kept incremental zero inventory copied z h = absurd (full_ne_incremental (sym (z refl)))
  CopiedAs-kept incremental (suc k) inventory copied z (j, p, place, prior, e) =
      let here : j ≡ length pre + k = omega arith in
      (
        k,
        p,
        refl,
        sym (get_elem?-append pre behind k) ∙ ap (get_elem? (pre ++ behind)) (sym here) ∙ prior,
        e,
      )
  CopiedAs-kept differential zero inventory copied z h =
      absurd (full_ne_differential (sym (z refl)))
  CopiedAs-kept differential (suc k) inventory copied z (f, p, last, prior, e) =
      let (f', last', here) = full_in_kept k f last in
      (
        f',
        p,
        last',
        sym (get_elem?-append pre behind f') ∙ ap (get_elem? (pre ++ behind)) (sym here) ∙ prior,
        e,
      )

  first_type : (k : ℕ) (x : Generation) → get_elem? behind k ≡ some x → k ≡ 0 → x.backup_type ≡ full
  first_type k x h z =
      ap type_of (sym (some_injective (ap (get_elem? behind) (sym z) ∙ h))) ∙ starts

  pub Made-kept : (folder : Folder) → Made folder (pre ++ behind) → Made folder behind
  Made-kept folder m = record {
    at = λ k x h.
        let old = m.at (length pre + k) x (get_elem?-append pre behind k ∙ h) in
        record {
          inventory = old.inventory;
          nodup = old.nodup;
          listed = old.listed;
          copied =
              CopiedAs-kept x.backup_type k old.inventory (folder x.id) (first_type k x h)
                old.copied;
        };
  }

Made-nil : (folder : Folder) → Made folder []
Made-nil folder = record { at = λ k x h. absurd (none_ne_some h) }
  where
    none_ne_some : {x : Generation} → none ≡ some x → ⊥
    none_ne_some h = cc

-- A prefix that cuts well can be taken off.
pub Made-suffix :
    (folder : Folder) (pre kept : List Generation)
    → CutsWell pre kept
    → Made folder (pre ++ kept)
    → Made folder kept
Made-suffix folder pre kept (inl nothing) m = subst (λ p. Made folder (p ++ kept)) nothing m
Made-suffix folder pre kept (inr (inl all)) m = subst (Made folder) (sym all) (Made-nil folder)
Made-suffix folder pre kept (inr (inr (g, rest, e, starts))) m =
    subst (Made folder) (sym e)
      (Made-kept pre g rest starts folder (subst (λ l. Made folder (pre ++ l)) e m))
