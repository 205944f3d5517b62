-- ===== src/GenerationRestore/Behind.antt =====
-- The restore of a live generation from a history that has lost folders in front.
use rustcopy.Base.{
  ℕ, zero, suc, ◌+◌, ◌≡◌, ◌∙◌, refl, sym, ap, subst, String, true, false, none, some, List, [], ◌∷◌,
  ◌++◌, map, length, get_elem?, contains, string_eq, arith, All, inl, inr, ok,
}
use mathlib.Core.Path.{ap₂}
use native.Mathlib.Nat.{zero-add}
use rustcopy.Generations.{ScannedFile, Generation, to_generation_files}
use rustcopy.Generations.Changes.{NodupPaths}
use rustcopy.Generations.Retention.{type_of, Fresh, Listed}
use rustcopy.Generations.Index.{CutsFull}
use rustcopy.GenerationRestore.{chain_for}
use rustcopy.GenerationRestore.Chain.{shift, get_elem?-append}
use rustcopy.GenerationRestore.AfterPrune.{Splits, Splits-nil, Splits-full}
use rustcopy.GenerationRestore.Newest.{newest_in}
use rustcopy.GenerationRestore.History.{stored, Holds}
use rustcopy.GenerationRestore.Range.{InRange, lt-there, chain_for-InRange}
use rustcopy.GenerationRestore.Rebuild.{rebuild}
use rustcopy.GenerationRun.Made.{Folder}
use rustcopy.GenerationRun.Live.{Lives}

-- At the position stands a generation that no failed purge was to delete.
abbrev pub IsReadable : List Generation → List String → ℕ → Type 0
IsReadable gens lost k =
    (g : Generation) × (get_elem? gens k ≡ some g) × (contains lost g.id ≡ false)

Splits-CutsFull : (pre live : List Generation) → CutsFull pre live → Splits pre live
Splits-CutsFull pre live (inl nothing) = subst (λ p. Splits p live) (sym nothing) (Splits-nil live)
Splits-CutsFull pre live (inr (g, rest, e, starts)) =
    subst (Splits pre) (sym e) (Splits-full pre rest g starts)

true≢false : true ≡ false → ⊥
true≢false h = cc

-- A generation that is not lost stands in the live part.
located :
    (lost : List String) (pre live : List Generation) (k : ℕ) (g : Generation)
    → Listed lost pre
    → get_elem? (pre ++ live) k ≡ some g
    → contains lost g.id ≡ false
    → (t : ℕ) × (k ≡ length pre + t) × (get_elem? live t ≡ some g)
located lost [] live k g h there kept = (k, sym (zero-add k), there)
located lost (x ∷ pre) live zero g (a, h) there kept =
    absurd (true≢false (sym a ∙ ground (arith, there, kept)))
located lost (x ∷ pre) live (suc k) g (a, h) there kept =
    let (t, e, at) = located lost pre live k g h there kept in (t, omega (arith, e), at)

stored-behind :
    (folder : Folder) (pre live : List Generation) (chain : List ℕ)
    → stored folder (pre ++ live) (map (λ i. length pre + i) chain) ≡ stored folder live chain
stored-behind folder pre live [] = refl
stored-behind folder pre live (i ∷ chain) =
    ap₂ (λ (a : List ScannedFile) (b : List (List ScannedFile)). a ∷ b)
      (ap (λ o. elim o [ none ↦ [] | some g ↦ folder g.id ]) (get_elem?-append pre live i))
      (stored-behind folder pre live chain)

Fresh-there :
    (lost : List String) (live : List Generation) (k : ℕ) (g : Generation)
    → Fresh lost live
    → get_elem? live k ≡ some g
    → contains lost g.id ≡ false
Fresh-there lost [] k g h there = cc
Fresh-there lost (x ∷ live) zero g (a, h) there = ground (arith, there)
Fresh-there lost (x ∷ live) (suc k) g (a, h) there = Fresh-there lost live k g h there

IsReadable-behind :
    (lost : List String) (pre live : List Generation) (chain : List ℕ)
    → Fresh lost live
    → InRange (length live) chain
    → All (IsReadable (pre ++ live) lost) (map (λ i. length pre + i) chain)
unfolding InRange
IsReadable-behind lost pre live [] f h = tt
IsReadable-behind lost pre live (i ∷ chain) f (a, h) =
    let (g, there) = lt-there live i a in
    (
      (g, get_elem?-append pre live i ∙ there, Fresh-there lost live i g f there),
      IsReadable-behind lost pre live chain f h,
    )

length-types : (gens : List Generation) → length (map type_of gens) ≡ length gens
length-types [] = refl
length-types (g ∷ gens) = omega (arith, length-types gens)

-- What a restore finds at the chain of a generation.
pub record Rebuilt (folder : Folder) (gens : List Generation) (lost : List String) (k : ℕ)
    (g : Generation) : Type 0 where
  pub chain : List ℕ
  pub found : chain_for (map type_of gens) k ≡ ok chain
  pub readable : All (IsReadable gens lost) chain
  pub holds : Holds folder gens chain g.files
  pub inventory : List ScannedFile
  pub nodup : NodupPaths inventory
  pub listed : g.files ≡ to_generation_files inventory

rebuild_live :
    (folder : Folder) (gens : List Generation) (lost : List String) (t : ℕ) (g : Generation)
    (s : Lives folder gens lost)
    → get_elem? s.live t ≡ some g
    → Rebuilt folder (s.pre ++ s.live) lost (length s.pre + t) g
rebuild_live folder gens lost t g s there =
    let (chain, found, holds) = rebuild folder s.live s.made t g there in
    let m = s.made.at t g there in
    let range =
      subst (λ n. InRange n chain) (length-types s.live)
        (chain_for-InRange (map type_of s.live) t chain found) in
    record {
      chain = map (λ i. length s.pre + i) chain;
      found = Splits-CutsFull s.pre s.live s.cut t ∙ ap (shift (length s.pre)) found;
      readable = IsReadable-behind lost s.pre s.live chain s.apart range;
      holds = λ path w e.
          let (n, held, newest, version) = holds path w e in
          (
            n,
            held,
            ap (newest_in path 0) (stored-behind folder s.pre s.live chain) ∙ newest,
            version,
          );
      inventory = m.inventory;
      nodup = m.nodup;
      listed = m.listed;
    }

-- Every generation that is not lost can be rebuilt, from folders that are not lost.
pub rebuild_behind :
    (folder : Folder) (gens : List Generation) (lost : List String) (k : ℕ) (g : Generation)
    → Lives folder gens lost
    → get_elem? gens k ≡ some g
    → contains lost g.id ≡ false
    → Rebuilt folder gens lost k g
rebuild_behind folder gens lost k g s there kept =
    let (t, e, at) =
      located lost s.pre s.live k g s.gone (ap (λ l. get_elem? l k) (sym s.whole) ∙ there) kept in
    subst (λ i. Rebuilt folder gens lost i g) (sym e)
      (subst (λ l. Rebuilt folder l lost (length s.pre + t) g) (sym s.whole)
        (rebuild_live folder gens lost t g s at))
