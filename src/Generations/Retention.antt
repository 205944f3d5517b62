-- ===== src/Generations/Retention.antt =====
-- What retention removes and what it keeps.
use rustcopy.Base.{
  ℕ, zero, suc, ◌-◌, ◌≡◌, ◌∙◌, refl, sym, ap, String, true, false, not, ◌||◌, List, [], ◌∷◌, ◌++◌,
  map, length, take, drop, keep_if, contains, string_eq, leb, nat_eq, arith, All, append_assoc,
  Bool-cases, inl, inr, subst,
}
use mathlib.Core.List.{map-append}
use rustcopy.Generations.{
  BackupType, Generation, GenerationManifest, cycles, flat_ids, generations_to_prune,
  retain_generations,
}
use rustcopy.Generations.Cycles.{
  split_cycles, cycle_ranges-eq-split, concat, concat-split, IsCycle, AllButFirst, cycles-IsCycle,
  cycles-AllButFirst,
}

abbrev pub type_of : Generation → BackupType
type_of g = g.backup_type

abbrev pub id_of : Generation → String
id_of g = g.id

pub cycles-eq-split : (m : GenerationManifest) → cycles m ≡ split_cycles type_of [] m.generations
unfolding cycles
cycles-eq-split m = cycle_ranges-eq-split type_of m.generations

-- The cycles of a manifest put together are its generations. Each has a first generation and no
-- other full one, and each but the first begins with a full one.
pub cycles_lem :
    (m : GenerationManifest)
    → (concat type_of (cycles m) ≡ m.generations)
      × All (IsCycle type_of) (cycles m)
      × AllButFirst type_of (cycles m)
cycles_lem m = rw (cycles-eq-split m) (
  concat-split type_of [] m.generations,
  cycles-IsCycle type_of m.generations,
  cycles-AllButFirst type_of m.generations,
)

-- No two generations have one id.
abbrev pub NodupIds : List Generation → Type 0
NodupIds [] = Unit
NodupIds (g ∷ gs) = (contains (map id_of gs) g.id ≡ false) × NodupIds gs

pub flat_ids-eq-map :
    (cs : List (List Generation)) → flat_ids id_of cs ≡ map id_of (concat type_of cs)
flat_ids-eq-map [] = refl
flat_ids-eq-map (c ∷ cs) =
    ap (λ t. map id_of c ++ t) (flat_ids-eq-map cs) ∙ sym (map-append id_of c (concat type_of cs))

pub concat-take-drop :
    (n : ℕ) (cs : List (List Generation))
    → concat type_of (take n cs) ++ concat type_of (drop n cs) ≡ concat type_of cs
concat-take-drop zero cs = refl
concat-take-drop (suc n) [] = refl
concat-take-drop (suc n) (c ∷ cs) =
    append_assoc c (concat type_of (take n cs)) (concat type_of (drop n cs))
    ∙ ap (λ t. c ++ t) (concat-take-drop n cs)

abbrev pub kept_of : List String → List Generation → List Generation
kept_of ids = keep_if (λ g. not (contains ids g.id))

pub contains-append :
    (xs ys : List String) (a : String) → contains (xs ++ ys) a ≡ (contains xs a || contains ys a)
contains-append [] ys a = refl
contains-append (x ∷ xs) ys a = ground (arith, contains-append xs ys a)

pub NodupIds-right : (xs ys : List Generation) → NodupIds (xs ++ ys) → NodupIds ys
NodupIds-right [] ys h = h
NodupIds-right (x ∷ xs) ys h = NodupIds-right xs ys h.1

pub not_later :
    (id : String) (xs ys : List Generation)
    → contains (map id_of (xs ++ ys)) id ≡ false
    → contains (map id_of ys) id ≡ false
not_later id xs ys h =
    let both =
      sym (contains-append (map id_of xs) (map id_of ys) id)
      ∙ ap (λ t. contains t id) (sym (map-append id_of xs ys))
      ∙ h in
    ground arith

-- An id of the second part is not among the ids of the first.
abbrev pub Fresh : List String → List Generation → Type 0
Fresh ids gs = All (λ g. contains ids g.id ≡ false) gs

Fresh-nil : (gs : List Generation) → Fresh [] gs
Fresh-nil [] = tt
Fresh-nil (g ∷ gs) = (refl, Fresh-nil gs)

Fresh-cons :
    (id : String) (ids : List String) (gs : List Generation)
    → contains (map id_of gs) id ≡ false
    → Fresh ids gs
    → Fresh (id ∷ ids) gs
Fresh-cons id ids [] h f = tt
Fresh-cons id ids (g ∷ gs) h (a, f) = (ground arith, Fresh-cons id ids gs (ground arith) f)

pub Fresh-ids : (xs ys : List Generation) → NodupIds (xs ++ ys) → Fresh (map id_of xs) ys
Fresh-ids [] ys h = Fresh-nil ys
Fresh-ids (x ∷ xs) ys (new, h) =
    Fresh-cons x.id (map id_of xs) ys (not_later x.id xs ys new) (Fresh-ids xs ys h)

kept_of-Fresh : (ids : List String) (gs : List Generation) → Fresh ids gs → kept_of ids gs ≡ gs
kept_of-Fresh ids [] h = refl
kept_of-Fresh ids (g ∷ gs) (a, h) = rw a (ap (λ t. g ∷ t) (kept_of-Fresh ids gs h))

abbrev pub Listed : List String → List Generation → Type 0
Listed ids gs = All (λ g. contains ids g.id ≡ true) gs

Listed-cons :
    (id : String) (ids : List String) (gs : List Generation) → Listed ids gs → Listed (id ∷ ids) gs
Listed-cons id ids [] f = tt
Listed-cons id ids (g ∷ gs) (a, f) = (ground arith, Listed-cons id ids gs f)

pub Listed-ids : (gs : List Generation) → Listed (map id_of gs) gs
Listed-ids [] = tt
Listed-ids (g ∷ gs) = (ground arith, Listed-cons g.id (map id_of gs) gs (Listed-ids gs))

kept_of_Listed : (ids : List String) (gs : List Generation) → Listed ids gs → kept_of ids gs ≡ []
kept_of_Listed ids [] h = refl
kept_of_Listed ids (g ∷ gs) (a, h) = rw a (kept_of_Listed ids gs h)

kept_of-append :
    (ids : List String) (xs ys : List Generation)
    → kept_of ids (xs ++ ys) ≡ kept_of ids xs ++ kept_of ids ys
kept_of-append ids [] ys = refl
kept_of-append ids (x ∷ xs) ys = ground (arith, kept_of-append ids xs ys)

pub kept_of-suffix :
    (xs ys : List Generation) → NodupIds (xs ++ ys) → kept_of (map id_of xs) (xs ++ ys) ≡ ys
kept_of-suffix xs ys h =
    kept_of-append (map id_of xs) xs ys
    ∙ ap (λ t. t ++ kept_of (map id_of xs) ys) (kept_of_Listed (map id_of xs) xs (Listed-ids xs))
    ∙ kept_of-Fresh (map id_of xs) ys (Fresh-ids xs ys h)

kept_of-nil : (gs : List Generation) → kept_of [] gs ≡ gs
kept_of-nil gs = kept_of-Fresh [] gs (Fresh-nil gs)

-- The cycles that a retention pass leaves: all of them, or the last `keep_cycles`.
unfoldable pub kept_cycles : GenerationManifest → ℕ → List (List Generation)
kept_cycles m keep_cycles = drop (length (cycles m) - keep_cycles) (cycles m)

-- Pruning with distinct ids leaves the generations of the `keep_cycles` latest cycles, in their
-- order and nothing else; that is all of them when there are no more cycles than that.
pub retain-prune :
    (m : GenerationManifest) (keep_cycles : ℕ)
    → NodupIds m.generations
    → (retain_generations m (generations_to_prune m keep_cycles)).generations
      ≡ concat type_of (kept_cycles m keep_cycles)
unfolding retain_generations generations_to_prune kept_cycles
retain-prune m keep_cycles h = elim (Bool-cases (leb (length (cycles m)) keep_cycles)) [
  | inl few ↦
      let none_go : length (cycles m) - keep_cycles ≡ 0 = ground (arith, few) in
      rw (few, none_go) (kept_of-nil m.generations ∙ sym (cycles_lem m).0)
  | inr more ↦
      let n = length (cycles m) - keep_cycles in
      let parts = concat-take-drop n (cycles m) ∙ (cycles_lem m).0 in
      rw more (
        ap (λ t. kept_of t m.generations) (flat_ids-eq-map (take n (cycles m)))
        ∙ ap (kept_of (map id_of (concat type_of (take n (cycles m))))) (sym parts)
        ∙ kept_of-suffix _ _ (subst NodupIds (sym parts) h))
]
