-- ===== src/Generations/Index.antt =====
-- Retention decided from the index is the one decided from the manifest, and it takes a prefix.
use rustcopy.Base.{
  ℕ, zero, suc, ◌<◌, ◌-◌, ◌≡◌, ◌∙◌, refl, sym, ap, String, List, [], ◌∷◌, ◌++◌, map, length, take,
  drop, leb, arith, All, Bool-cases, inl, inr, ◌⊎◌, if◌then◌else◌,
}
use mathlib.Core.Path.{ap₂}
use rustcopy.Generations.{
  full, Generation, GenerationManifest, GenerationIndex, GenerationIndexEntry, entry_of,
  cycle_ranges, slice, cycles, flat_ids, ids_beyond, generations_to_prune, index_to_prune,
}
use rustcopy.Generations.Cycles.{concat, AllButFirst, StartsFull}
use rustcopy.Generations.Retention.{type_of, id_of, cycles_lem, concat-take-drop, flat_ids-eq-map}

abbrev pub index_of : GenerationManifest → GenerationIndex
index_of m = record { entries = map entry_of m.generations }

take-map : (n : ℕ) (gs : List Generation) → take n (map entry_of gs) ≡ map entry_of (take n gs)
take-map zero gs = refl
take-map (suc n) [] = refl
take-map (suc n) (g ∷ gs) = ap (λ t. entry_of g ∷ t) (take-map n gs)

drop-map : (n : ℕ) (gs : List Generation) → drop n (map entry_of gs) ≡ map entry_of (drop n gs)
drop-map zero gs = refl
drop-map (suc n) [] = refl
drop-map (suc n) (g ∷ gs) = drop-map n gs

slice-map :
    (gs : List Generation) (r : ℕ × ℕ) → slice (map entry_of gs) r ≡ map entry_of (slice gs r)
slice-map gs (from, to) =
    ap (take (to - from)) (drop-map from gs) ∙ take-map (to - from) (drop from gs)

slices-map :
    (gs : List Generation) (rs : List (ℕ × ℕ))
    → map (slice (map entry_of gs)) rs ≡ map (map entry_of) (map (slice gs) rs)
slices-map gs [] = refl
slices-map gs (r ∷ rs) =
    ap₂ (λ (a : List GenerationIndexEntry) (b : List (List GenerationIndexEntry)). a ∷ b)
      (slice-map gs r) (slices-map gs rs)

types-map :
    (gs : List Generation)
    → map (λ (e : GenerationIndexEntry). e.backup_type) (map entry_of gs) ≡ map type_of gs
types-map [] = refl
types-map (g ∷ gs) = ap (λ t. g.backup_type ∷ t) (types-map gs)

ids-map :
    (gs : List Generation)
    → map (λ (e : GenerationIndexEntry). e.id) (map entry_of gs) ≡ map id_of gs
ids-map [] = refl
ids-map (g ∷ gs) = ap (λ t. g.id ∷ t) (ids-map gs)

flat_ids-map :
    (n : ℕ) (cs : List (List Generation))
    → flat_ids (λ (e : GenerationIndexEntry). e.id) (take n (map (map entry_of) cs))
      ≡ flat_ids id_of (take n cs)
flat_ids-map zero cs = refl
flat_ids-map (suc n) [] = refl
flat_ids-map (suc n) (c ∷ cs) = ap₂ (λ (a b : List String). a ++ b) (ids-map c) (flat_ids-map n cs)

length-map_entries : (cs : List (List Generation)) → length (map (map entry_of) cs) ≡ length cs
length-map_entries [] = refl
length-map_entries (c ∷ cs) = ap suc (length-map_entries cs)

-- The index, which holds no file listing, gives the ids that the whole manifest gives.
pub index_to_prune-index_of :
    (m : GenerationManifest) (keep_cycles : ℕ)
    → index_to_prune (index_of m) keep_cycles ≡ generations_to_prune m keep_cycles
unfolding index_to_prune generations_to_prune cycles
index_to_prune-index_of m keep_cycles =
    ap
      (λ types.
        ids_beyond (λ e. e.id) (map (slice (map entry_of m.generations)) (cycle_ranges types))
          keep_cycles)
      (types-map m.generations)
    ∙ ap (λ cs. ids_beyond (λ (e : GenerationIndexEntry). e.id) cs keep_cycles)
        (slices-map m.generations _)
    ∙ ids_beyond-map (map (slice m.generations) (cycle_ranges (map type_of m.generations)))
  where
    ids_beyond-map :
        (cs : List (List Generation))
        → ids_beyond (λ (e : GenerationIndexEntry). e.id) (map (map entry_of) cs) keep_cycles
          ≡ ids_beyond id_of cs keep_cycles
    ids_beyond-map cs =
        ap
          (λ n.
            if leb n keep_cycles
            then []
            else flat_ids (λ (e : GenerationIndexEntry). e.id)
                (take (n - keep_cycles) (map (map entry_of) cs)))
          (length-map_entries cs)
        ∙ ap (λ t. if leb (length cs) keep_cycles then [] else t)
            (flat_ids-map (length cs - keep_cycles) cs)

-- Nothing goes, or nothing stays, or what stays begins with a full generation.
abbrev pub CutsWell : List Generation → List Generation → Type 0
CutsWell pre kept =
    (pre ≡ [])
    ⊎ ((kept ≡ [])
        ⊎ ((g : Generation) × (rest : List Generation) × (kept ≡ g ∷ rest) × (type_of g ≡ full)))

CutsWell-cycles :
    (pre : List Generation) (cs : List (List Generation))
    → All (StartsFull type_of) cs
    → CutsWell pre (concat type_of cs)
CutsWell-cycles pre [] h = inr (inl refl)
CutsWell-cycles pre ([] ∷ cs) h = absurd h.0
CutsWell-cycles pre ((g ∷ c) ∷ cs) h = inr (inr (g, c ++ concat type_of cs, refl, h.0))

All-drop :
    (n : ℕ) (cs : List (List Generation))
    → All (StartsFull type_of) cs
    → All (StartsFull type_of) (drop n cs)
All-drop zero cs h = h
All-drop (suc n) [] h = tt
All-drop (suc n) (c ∷ cs) h = All-drop n cs h.1

CutsWell-drop :
    (n : ℕ) (cs : List (List Generation))
    → AllButFirst type_of cs
    → CutsWell (concat type_of (take n cs)) (concat type_of (drop n cs))
CutsWell-drop zero cs h = inl refl
CutsWell-drop (suc n) [] h = inl refl
CutsWell-drop (suc n) (c ∷ cs) h = CutsWell-cycles _ (drop n cs) (All-drop n cs h)

-- Nothing goes, or something stays and begins with a full generation.
abbrev pub CutsFull : List Generation → List Generation → Type 0
CutsFull pre kept =
    (pre ≡ [])
    ⊎ ((g : Generation) × (rest : List Generation) × (kept ≡ g ∷ rest) × (type_of g ≡ full))

CutsFull-cycles :
    (pre : List Generation) (cs : List (List Generation))
    → 0 < length cs
    → All (StartsFull type_of) cs
    → CutsFull pre (concat type_of cs)
CutsFull-cycles pre [] lt h = absurd (omega arith)
CutsFull-cycles pre ([] ∷ cs) lt h = absurd h.0
CutsFull-cycles pre ((g ∷ c) ∷ cs) lt h = inr (g, c ++ concat type_of cs, refl, h.0)

length-drop_pos : (n : ℕ) (cs : List (List Generation)) → n < length cs → 0 < length (drop n cs)
length-drop_pos zero cs h = h
length-drop_pos (suc n) [] h = absurd (omega arith)
length-drop_pos (suc n) (c ∷ cs) h = length-drop_pos n cs (omega arith)

CutsFull-drop :
    (n : ℕ) (cs : List (List Generation))
    → n < length cs
    → AllButFirst type_of cs
    → CutsFull (concat type_of (take n cs)) (concat type_of (drop n cs))
CutsFull-drop zero cs lt h = inl refl
CutsFull-drop (suc n) [] lt h = inl refl
CutsFull-drop (suc n) (c ∷ cs) lt h =
    CutsFull-cycles _ (drop n cs) (length-drop_pos n cs (omega arith)) (All-drop n cs h)

pub record PruneSplit (gens : List Generation) (ids : List String) (keep_cycles : ℕ) : Type 0 where
  pub pre : List Generation
  pub kept : List Generation
  pub whole : gens ≡ pre ++ kept
  pub taken : ids ≡ map id_of pre
  pub cuts : CutsWell pre kept
  pub stays : 0 < keep_cycles → CutsFull pre kept

-- The ids to prune are those of a prefix of the history.
pub prune_split :
    (m : GenerationManifest) (keep_cycles : ℕ)
    → PruneSplit m.generations (generations_to_prune m keep_cycles) keep_cycles
unfolding generations_to_prune
prune_split m keep_cycles = elim (Bool-cases (leb (length (cycles m)) keep_cycles)) [
  | inl few ↦ rw few (record {
    pre = [];
    kept = m.generations;
    whole = refl;
    taken = refl;
    cuts = inl refl;
    stays = λ pos. inl refl;
  })
  | inr more ↦
      let n = length (cycles m) - keep_cycles in
      let over : keep_cycles < length (cycles m) = ground (arith, more) in
      rw more (record {
        pre = concat type_of (take n (cycles m));
        kept = concat type_of (drop n (cycles m));
        whole = sym (concat-take-drop n (cycles m) ∙ (cycles_lem m).0);
        taken = flat_ids-eq-map (take n (cycles m));
        cuts = CutsWell-drop n (cycles m) (cycles_lem m).2;
        stays = λ pos. CutsFull-drop n (cycles m) (omega arith) (cycles_lem m).2;
      })
]
