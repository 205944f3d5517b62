-- ===== src/GenerationRestore/AfterPrune.antt =====
-- Retention never takes a folder that a kept generation is layered on.
use rustcopy.Base.{
  ℕ, zero, suc, ◌+◌, ◌-◌, ◌≡◌, ◌∙◌, refl, sym, ap, List, [], ◌∷◌, ◌++◌, map, length, get_elem?,
  take, drop, Result, ok, err, All,
}
use mathlib.Core.List.{map-append}
use mathlib.Core.Path.{ap₂}
use native.Mathlib.Nat.{zero-add}
use rustcopy.Errors.{IngestError}
use rustcopy.Generations.{
  full, Generation, GenerationManifest, cycles, generations_to_prune, retain_generations,
}
use rustcopy.Generations.Cycles.{concat, AllButFirst, StartsFull}
use rustcopy.Generations.Retention.{
  type_of, NodupIds, kept_cycles, retain-prune, cycles_lem, concat-take-drop,
}
use rustcopy.GenerationRestore.{chain_for}
use rustcopy.GenerationRestore.Chain.{shift, chain_for-append, chain_for-none, get_elem?-append}

shift-zero : (r : Result IngestError (List ℕ)) → shift 0 r ≡ r
shift-zero (ok chain) = ap ok (map-zero_add chain)
  where
    map-zero_add : (l : List ℕ) → map (λ i. 0 + i) l ≡ l
    map-zero_add [] = refl
    map-zero_add (x ∷ l) = ap₂ (λ (a : ℕ) (b : List ℕ). a ∷ b) (zero-add x) (map-zero_add l)
shift-zero (err e) = refl

length-types : (gs : List Generation) → length (map type_of gs) ≡ length gs
length-types [] = refl
length-types (g ∷ gs) = ap suc (length-types gs)

abbrev pub Splits : List Generation → List Generation → Type 0
Splits pre kept =
    (t : ℕ)
    → chain_for (map type_of (pre ++ kept)) (length pre + t)
      ≡ shift (length pre) (chain_for (map type_of kept) t)

pub Splits-nil : (kept : List Generation) → Splits [] kept
Splits-nil kept t = rw zero-add (sym (shift-zero _))

Splits-end : (pre : List Generation) → Splits pre []
Splits-end pre t =
    chain_for-none _ (length pre + t) (
      ap (λ l. get_elem? l (length pre + t)) (map-append type_of pre [])
      ∙ ap (λ n. get_elem? (map type_of pre ++ []) (n + t)) (sym (length-types pre))
      ∙ get_elem?-append (map type_of pre) [] t)
    ∙ ap (shift (length pre)) (sym (chain_for-none [] t refl))

pub Splits-full :
    (pre rest : List Generation) (g : Generation) → type_of g ≡ full → Splits pre (g ∷ rest)
Splits-full pre rest g e t =
    ap (λ l. chain_for l (length pre + t))
      (map-append type_of pre (g ∷ rest) ∙ ap (λ x. map type_of pre ++ (x ∷ map type_of rest)) e)
    ∙ ap (λ n. chain_for (map type_of pre ++ (full ∷ map type_of rest)) (n + t))
        (sym (length-types pre))
    ∙ chain_for-append (map type_of pre) (map type_of rest) t
    ∙ ap (λ n. shift n (chain_for (full ∷ map type_of rest) t)) (length-types pre)
    ∙ ap (λ x. shift (length pre) (chain_for (x ∷ map type_of rest) t)) (sym e)

Splits-cycles :
    (pre : List Generation) (cs : List (List Generation))
    → All (StartsFull type_of) cs
    → Splits pre (concat type_of cs)
Splits-cycles pre [] h = Splits-end pre
Splits-cycles pre ([] ∷ cs) h = absurd h.0
Splits-cycles pre ((g ∷ c) ∷ cs) h = Splits-full pre (c ++ concat type_of cs) g h.0

All-drop :
    (n : ℕ) (cs : List (List Generation))
    → All (StartsFull type_of) cs
    → All (StartsFull type_of) (drop n cs)
All-drop zero cs h = h
All-drop (suc n) [] h = tt
All-drop (suc n) (c ∷ cs) h = All-drop n cs h.1

Splits-drop :
    (n : ℕ) (cs : List (List Generation))
    → AllButFirst type_of cs
    → Splits (concat type_of (take n cs)) (concat type_of (drop n cs))
Splits-drop zero cs h = Splits-nil (concat type_of cs)
Splits-drop (suc n) [] h = Splits-nil []
Splits-drop (suc n) (c ∷ cs) h = Splits-cycles _ (drop n cs) (All-drop n cs h)

-- After pruning with distinct ids, the history is a prefix and what was kept; the chain of each
-- kept generation, or the refusal, is the one that the whole history gave, with its positions
-- counted from the prefix. So no pruned folder is needed to restore a kept generation.
pub chain_for-retain_prune :
    (m : GenerationManifest) (keep_cycles : ℕ)
    → NodupIds m.generations
    → let kept = (retain_generations m (generations_to_prune m keep_cycles)).generations in
      (pre : List Generation) × (m.generations ≡ pre ++ kept)
      × ((t : ℕ)
          → chain_for (map type_of m.generations) (length pre + t)
            ≡ shift (length pre) (chain_for (map type_of kept) t))
unfolding kept_cycles
chain_for-retain_prune m keep_cycles h =
    let n = length (cycles m) - keep_cycles in
    let parts = concat-take-drop n (cycles m) ∙ (cycles_lem m).0 in
    rw (retain-prune m keep_cycles h) (
      concat type_of (take n (cycles m)),
      sym parts,
      λ t.
          ap (λ l. chain_for (map type_of l) (length (concat type_of (take n (cycles m))) + t))
            (sym parts)
          ∙ Splits-drop n (cycles m) (cycles_lem m).2 t,
    )
