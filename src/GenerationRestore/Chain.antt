-- ===== src/GenerationRestore/Chain.antt =====
-- The chain of a generation.
use rustcopy.Base.{
  ℕ, zero, suc, ◌+◌, ◌≡◌, ◌∙◌, refl, sym, ap, Option, none, some, List, [], ◌∷◌, ◌++◌, map, length,
  get_elem?, take, Result, ok, err, ◌>>=◌, Option-cases, arith, eq_self, inl, inr,
}
use mathlib.Core.List.{map-append}
use native.Mathlib.Nat.{zero-add, suc-add, add-suc}
use rustcopy.Errors.{IngestError}
use rustcopy.Generations.{BackupType, full, incremental, differential, backup_type_eq}
use rustcopy.GenerationRestore.{refuse, last_full, differential_chain, chain_for}

-- `chain_for` by the type of its target.
module _ (types : List BackupType) where
  pub chain_for-full : (t : ℕ) → get_elem? types t ≡ some full → chain_for types t ≡ ok (t ∷ [])
  unfolding chain_for
  chain_for-full zero e = rw (e, chain_for) refl
  chain_for-full (suc t) e = rw (e, chain_for) refl

  pub chain_for-none :
      (t : ℕ) → get_elem? types t ≡ none → chain_for types t ≡ refuse "no such generation"
  unfolding chain_for
  chain_for-none zero e = rw (e, chain_for) refl
  chain_for-none (suc t) e = rw (e, chain_for) refl

  pub chain_for-differential :
      (t : ℕ)
      → get_elem? types t ≡ some differential
      → chain_for types t ≡ differential_chain (last_full (take t types)) t
  unfolding chain_for
  chain_for-differential zero e = rw (e, chain_for) refl
  chain_for-differential (suc t) e = rw (e, chain_for) refl

  pub chain_for-incremental :
      (t : ℕ)
      → get_elem? types (suc t) ≡ some incremental
      → chain_for types (suc t) ≡ (chain_for types t >>= λ chain. ok (chain ++ (suc t ∷ [])))
  unfolding chain_for
  chain_for-incremental t e = rw (e, chain_for) refl

abbrev pub shift : ℕ → Result IngestError (List ℕ) → Result IngestError (List ℕ)
shift n r = r >>= λ chain. ok (map (λ i. n + i) chain)

module _ {ℓ} {A : Type ℓ} where
  pub get_elem?-append :
      (pre rest : List A) (i : ℕ) → get_elem? (pre ++ rest) (length pre + i) ≡ get_elem? rest i
  get_elem?-append [] rest i = rw zero-add refl
  get_elem?-append (x ∷ pre) rest i = rw suc-add (get_elem?-append pre rest i)

  pub take-length_add :
      (pre rest : List A) (i : ℕ) → take (length pre + i) (pre ++ rest) ≡ pre ++ take i rest
  take-length_add [] rest i = rw zero-add refl
  take-length_add (x ∷ pre) rest i = rw suc-add (ap (λ t. x ∷ t) (take-length_add pre rest i))

pub last_full-append :
    (pre rest : List BackupType) {f : ℕ}
    → last_full rest ≡ some f
    → last_full (pre ++ rest) ≡ some (length pre + f)
last_full-append [] rest e = rw zero-add e
last_full-append (t ∷ pre) rest {f} e = rw (last_full-append pre rest e, suc-add) refl

pub last_full_of_full : (rest : List BackupType) → (f : ℕ) × (last_full (full ∷ rest) ≡ some f)
last_full_of_full rest = elim (Option-cases (last_full rest)) [
  | inl e ↦ (0, ground (arith, e, eq_self full))
  | inr (i, e) ↦ (suc i, ground (arith, e))
]

shift-snoc :
    (n t : ℕ) (r : Result IngestError (List ℕ))
    → (shift n r >>= λ chain. ok (chain ++ (suc (n + t) ∷ [])))
      ≡ shift n (r >>= λ chain. ok (chain ++ (suc t ∷ [])))
shift-snoc n t (ok chain) = ap ok (
    ap (λ x. map (λ i. n + i) chain ++ (x ∷ [])) (sym (add-suc n t))
    ∙ sym (map-append _ chain (suc t ∷ [])))
shift-snoc n t (err e) = refl

by_type :
    (pre rest : List BackupType) (t : ℕ) (o : Option BackupType)
    → get_elem? rest t ≡ o
    → chain_for (pre ++ (full ∷ rest)) (length pre + t)
      ≡ shift (length pre) (chain_for (full ∷ rest) t)
    → chain_for (pre ++ (full ∷ rest)) (length pre + suc t)
      ≡ shift (length pre) (chain_for (full ∷ rest) (suc t))
by_type pre rest t none e ih =
    chain_for-none _ (length pre + suc t) (get_elem?-append pre (full ∷ rest) (suc t) ∙ e)
    ∙ ap (shift (length pre)) (sym (chain_for-none (full ∷ rest) (suc t) e))
by_type pre rest t (some full) e ih =
    chain_for-full _ (length pre + suc t) (get_elem?-append pre (full ∷ rest) (suc t) ∙ e)
    ∙ ap (shift (length pre)) (sym (chain_for-full (full ∷ rest) (suc t) e))
by_type pre rest t (some differential) e ih =
    let (f, last) = last_full_of_full (take t rest) in
    chain_for-differential _ (length pre + suc t) (get_elem?-append pre (full ∷ rest) (suc t) ∙ e)
    ∙ ap (λ o. differential_chain o (length pre + suc t))
        (ap last_full (take-length_add pre (full ∷ rest) (suc t)) ∙ last_full-append pre _ last)
    ∙ ap (λ o. shift (length pre) (differential_chain o (suc t))) (sym last)
    ∙ ap (shift (length pre)) (sym (chain_for-differential (full ∷ rest) (suc t) e))
by_type pre rest t (some incremental) e ih =
    let place : length pre + suc t ≡ suc (length pre + t) = add-suc (length pre) t in
    ap (chain_for (pre ++ (full ∷ rest))) place
    ∙ chain_for-incremental _ (length pre + t) (
        ap (get_elem? (pre ++ (full ∷ rest))) (sym place)
        ∙ get_elem?-append pre (full ∷ rest) (suc t)
        ∙ e)
    ∙ ap (λ r. r >>= λ chain. ok (chain ++ (suc (length pre + t) ∷ []))) ih
    ∙ shift-snoc (length pre) t (chain_for (full ∷ rest) t)
    ∙ ap (shift (length pre)) (sym (chain_for-incremental (full ∷ rest) t e))

-- A history in front of a full generation changes the chains behind it in their positions alone.
pub chain_for-append :
    (pre rest : List BackupType) (t : ℕ)
    → chain_for (pre ++ (full ∷ rest)) (length pre + t)
      ≡ shift (length pre) (chain_for (full ∷ rest) t)
chain_for-append pre rest zero =
    chain_for-full _ (length pre + 0) (get_elem?-append pre (full ∷ rest) 0)
    ∙ ap (shift (length pre)) (sym (chain_for-full (full ∷ rest) 0 refl))
chain_for-append pre rest (suc t) =
    by_type pre rest t (get_elem? rest t) refl (chain_for-append pre rest t)
