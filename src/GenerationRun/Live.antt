-- ===== src/GenerationRun/Live.antt =====
-- A history, a part of which a purge that failed may have taken the folders of.
use rustcopy.Base.{
  ℕ, zero, suc, ◌≡◌, ◌∙◌, refl, sym, ap, subst, String, false, some, List, [], ◌∷◌, ◌++◌, map,
  length, get_elem?, contains, string_eq, arith, All, append_assoc, length-append, inl, inr,
}
use mathlib.Core.List.{map-append}
use rustcopy.Generations.{BackupType, ScannedFile, Generation, to_generation_files}
use rustcopy.Generations.Changes.{NodupPaths}
use rustcopy.Generations.Retention.{id_of, NodupIds, Fresh, Listed, contains-append}
use rustcopy.Generations.Index.{CutsFull}
use rustcopy.GenerationRun.Made.{Folder, CopiedAs, Made}
use rustcopy.GenerationRun.Pruned.{CopiedAs-kept}
use rustcopy.GenerationRun.Keeps.{IsFresh, CopiedAs-snoc, Made-snoc}

-- The history is a prefix, whose ids are lost, and a live part, which the prefix is not needed for
-- and whose folders hold what their generations' types ask for. No id stands twice.
pub record Lives (folder : Folder) (gens : List Generation) (lost : List String) : Type 0 where
  pub pre : List Generation
  pub live : List Generation
  pub whole : gens ≡ pre ++ live
  pub ids : NodupIds gens
  pub cut : CutsFull pre live
  pub gone : Listed lost pre
  pub apart : Fresh lost live
  pub made : Made folder live

module _ (P : Generation → Type 0) where
  pub All-right : (xs ys : List Generation) → All P (xs ++ ys) → All P ys
  All-right [] ys h = h
  All-right (x ∷ xs) ys h = All-right xs ys h.1

  All-snoc : (xs : List Generation) (y : Generation) → All P xs → P y → All P (xs ++ (y ∷ []))
  All-snoc [] y h p = (p, tt)
  All-snoc (x ∷ xs) y (a, h) p = (a, All-snoc xs y h p)

pub Listed-more :
    (lost more : List String) (gs : List Generation) → Listed lost gs → Listed (lost ++ more) gs
Listed-more lost more [] h = tt
Listed-more lost more (g ∷ gs) (a, h) =
    (ground (arith, contains-append lost more g.id), Listed-more lost more gs h)

pub Listed-other :
    (lost more : List String) (gs : List Generation) → Listed more gs → Listed (lost ++ more) gs
Listed-other lost more [] h = tt
Listed-other lost more (g ∷ gs) (a, h) =
    (ground (arith, contains-append lost more g.id), Listed-other lost more gs h)

pub Fresh-both :
    (lost more : List String) (gs : List Generation)
    → Fresh lost gs
    → Fresh more gs
    → Fresh (lost ++ more) gs
Fresh-both lost more [] h k = tt
Fresh-both lost more (g ∷ gs) (a, h) (b, k) =
    (ground (arith, contains-append lost more g.id), Fresh-both lost more gs h k)

Fresh-at :
    (ids : List String) (gs : List Generation) (k : ℕ) {g : Generation}
    → Fresh ids gs
    → get_elem? gs k ≡ some g
    → contains ids g.id ≡ false
Fresh-at ids [] k f h = cc
Fresh-at ids (x ∷ gs) zero (a, f) h = ground arith
Fresh-at ids (x ∷ gs) (suc k) {g} (a, f) h = Fresh-at ids gs k {g = g} f h

-- Folders that differ for some ids alone are as good for a history without them.
pub Made-agree :
    (f f' : Folder) (ids : List String) (gs : List Generation)
    → ((j : String) → contains ids j ≡ false → f' j ≡ f j)
    → Fresh ids gs
    → Made f gs
    → Made f' gs
Made-agree f f' ids gs agree fresh m = record {
  at = λ k g h.
      let old = m.at k g h in
      record {
        inventory = old.inventory;
        nodup = old.nodup;
        listed = old.listed;
        copied =
            subst (CopiedAs g.backup_type gs k old.inventory)
              (sym (agree g.id (Fresh-at ids gs k {g = g} fresh h))) old.copied;
      };
}

NodupIds-snoc :
    (gs : List Generation) (n : Generation)
    → IsFresh n.id gs
    → NodupIds gs
    → NodupIds (gs ++ (n ∷ []))
NodupIds-snoc [] n f h = (refl, tt)
NodupIds-snoc (g ∷ gs) n f (new, h) =
    let parts =
      ap (λ l. contains l g.id) (map-append id_of gs (n ∷ []))
      ∙ contains-append (map id_of gs) (n.id ∷ []) g.id in
    (parts ∙ ground arith, NodupIds-snoc gs n (ground arith) h)

-- The prefix is not needed by what is copied behind it.
CopiedAs-live :
    (t : BackupType) (pre live : List Generation) (inventory copied : List ScannedFile)
    → CutsFull pre live
    → CopiedAs t (pre ++ live) (length (pre ++ live)) inventory copied
    → CopiedAs t live (length live) inventory copied
CopiedAs-live t pre live inventory copied (inl nothing) h =
    subst (λ p. CopiedAs t (p ++ live) (length (p ++ live)) inventory copied) nothing h
CopiedAs-live t pre live inventory copied (inr (g, rest, e, starts)) h =
    subst (λ l. CopiedAs t l (length l) inventory copied) (sym e)
      (CopiedAs-kept pre g rest starts t (length (g ∷ rest)) inventory copied
        (λ z. absurd (omega arith))
        (subst (λ n. CopiedAs t (pre ++ (g ∷ rest)) n inventory copied)
          (length-append pre (g ∷ rest))
          (subst (λ l. CopiedAs t (pre ++ l) (length (pre ++ l)) inventory copied) e h)))

CutsFull-snoc :
    (pre live : List Generation) (n : Generation)
    → CutsFull pre live
    → CutsFull pre (live ++ (n ∷ []))
CutsFull-snoc pre live n (inl nothing) = inl nothing
CutsFull-snoc pre live n (inr (g, rest, e, starts)) =
    inr (g, rest ++ (n ∷ []), ap (λ l. l ++ (n ∷ [])) e, starts)

-- A new generation whose folder holds what the whole history asks for is live.
pub Lives-snoc :
    (folder : Folder) (gens : List Generation) (lost : List String) (n : Generation)
    (inventory : List ScannedFile)
    → IsFresh n.id gens
    → contains lost n.id ≡ false
    → NodupPaths inventory
    → n.files ≡ to_generation_files inventory
    → CopiedAs n.backup_type gens (length gens) inventory (folder n.id)
    → Lives folder gens lost
    → Lives folder (gens ++ (n ∷ [])) lost
Lives-snoc folder gens lost n inventory fresh new nodup listed copied s = record {
  pre = s.pre;
  live = s.live ++ (n ∷ []);
  whole = ap (λ l. l ++ (n ∷ [])) s.whole ∙ append_assoc s.pre s.live (n ∷ []);
  ids = NodupIds-snoc gens n fresh s.ids;
  cut = CutsFull-snoc s.pre s.live n s.cut;
  gone = s.gone;
  apart = All-snoc (λ g. contains lost g.id ≡ false) s.live n s.apart new;
  made = Made-snoc folder s.live n s.made (record {
    inventory = inventory;
    nodup = nodup;
    listed = listed;
    copied =
        CopiedAs-snoc n.backup_type s.live n (length s.live) inventory (folder n.id) (omega arith) (
          CopiedAs-live n.backup_type s.pre s.live inventory (folder n.id) s.cut (
            subst (λ l. CopiedAs n.backup_type l (length l) inventory (folder n.id)) s.whole
              copied));
  });
}
