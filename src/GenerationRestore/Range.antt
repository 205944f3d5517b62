-- ===== src/GenerationRestore/Range.antt =====
-- The positions of a chain are places of the history.
use rustcopy.Base.{
  ℕ, zero, suc, ◌≤◌, ◌<◌, ◌≡◌, ◌∙◌, refl, sym, ap, subst, none, some, List, [], ◌∷◌, ◌++◌, length,
  get_elem?, take, All, Result, ok, ◌>>=◌, ◌==◌, string_eq, nat_eq, arith, Bool-cases, Option-cases,
  Result-cases, inl, inr, if◌then◌else◌,
}
use rustcopy.Errors.{IngestError}
use rustcopy.Generations.{BackupType, full, incremental, differential, backup_type_eq}
use rustcopy.GenerationRestore.{chain_for, differential_chain, last_full}
use rustcopy.GenerationRestore.Chain.{
  chain_for-full, chain_for-none, chain_for-differential, chain_for-incremental,
}

pub some_inj {ℓ} : {A : Type ℓ} (a b : A) → some a ≡ some b → a ≡ b
some_inj a b h = cc

unfoldable pub InRange : ℕ → List ℕ → Type 0
InRange n chain = All (λ position. position < n) chain

last_full-lt : (types : List BackupType) (n : ℕ) → last_full types ≡ some n → n < length types
last_full-lt [] n h = cc
last_full-lt (t ∷ types) n h = elim (Option-cases (last_full types)) [
  | inr (i, e) ↦
      let step : last_full (t ∷ types) ≡ some (suc i) = rw e refl in
      omega (arith, some_inj (suc i) n (sym step ∙ h), last_full-lt types i e)
  | inl e ↦
      let step : last_full (t ∷ types) ≡ (if t == full then some 0 else none) = rw e refl in
      elim (Bool-cases (t == full)) [
        | inl is_full ↦
            let zero_is : some 0 ≡ some n =
              sym (step ∙ ap (λ b. if b then some 0 else none) is_full) ∙ h in
            omega (arith, some_inj 0 n zero_is)
        | inr other ↦
            let nothing : none ≡ some n =
              sym (step ∙ ap (λ b. if b then some 0 else none) other) ∙ h in
            cc nothing
      ]
]

there-lt {ℓ} : {A : Type ℓ} (xs : List A) (k : ℕ) (x : A) → get_elem? xs k ≡ some x → k < length xs
there-lt [] k x h = cc
there-lt (y ∷ xs) zero x h = omega arith
there-lt (y ∷ xs) (suc k) x h = omega (arith, there-lt xs k x h)

pub lt-there {ℓ} :
    {A : Type ℓ} (xs : List A) (k : ℕ) → k < length xs → (x : A) × (get_elem? xs k ≡ some x)
lt-there [] k h = absurd (omega (arith, h))
lt-there (y ∷ xs) zero h = (y, refl)
lt-there (y ∷ xs) (suc k) h = lt-there xs k (omega (arith, h))

length-take_le {ℓ} : {A : Type ℓ} (n : ℕ) (xs : List A) → length (take n xs) ≤ length xs
length-take_le zero xs = omega arith
length-take_le (suc n) [] = omega arith
length-take_le (suc n) (x ∷ xs) = omega (arith, length-take_le n xs)

InRange-snoc :
    (n : ℕ) (chain : List ℕ) (p : ℕ) → InRange n chain → p < n → InRange n (chain ++ (p ∷ []))
unfolding InRange
InRange-snoc n [] p h k = (k, tt)
InRange-snoc n (q ∷ chain) p (a, h) k = (a, InRange-snoc n chain p h k)

abbrev fine : List ℕ → Result IngestError (List ℕ)
fine chain = ok chain

ok_inj : (a b : List ℕ) → fine a ≡ fine b → a ≡ b
ok_inj a b h = cc

differential_chain-InRange :
    (types : List BackupType) (t : ℕ) (chain : List ℕ)
    → t < length types
    → differential_chain (last_full (take t types)) t ≡ ok chain
    → InRange (length types) chain
unfolding InRange
differential_chain-InRange types t chain h e = elim (Option-cases (last_full (take t types))) [
  | inl absent ↦ let refused = ap (λ o. differential_chain o t) (sym absent) ∙ e in cc refused
  | inr (f, found) ↦
      let two = ok_inj (f ∷ t ∷ []) chain (ap (λ o. differential_chain o t) (sym found) ∙ e) in
      subst (λ c. All (λ position. position < length types) c) two
        (omega (arith, last_full-lt (take t types) f found, length-take_le t types), (h, tt))
]

incremental_zero :
    (types : List BackupType) (chain : List ℕ)
    → get_elem? types 0 ≡ some incremental
    → chain_for types 0 ≡ fine chain
    → InRange (length types) chain
unfolding chain_for
incremental_zero types chain at e = cc (rw (at, chain_for) at e)

after_shorter :
    (types : List BackupType) (t : ℕ) (chain : List ℕ)
    → ((c : List ℕ) → chain_for types t ≡ fine c → InRange (length types) c)
    → suc t < length types
    → (chain_for types t >>= λ c. ok (c ++ (suc t ∷ []))) ≡ fine chain
    → InRange (length types) chain
after_shorter types t chain ih h e = elim (Result-cases (chain_for types t)) [
  | inr (p, bad) ↦
      let refused = ap (λ r. r >>= λ c. fine (c ++ (suc t ∷ []))) (sym bad) ∙ e in cc refused
  | inl (c, good) ↦
      let longer =
        ok_inj (c ++ (suc t ∷ [])) chain
          (ap (λ r. r >>= λ c. fine (c ++ (suc t ∷ []))) (sym good) ∙ e) in
      subst (InRange (length types)) longer (InRange-snoc (length types) c (suc t) (ih c good) h)
]

one-InRange : (n t : ℕ) → t < n → InRange n (t ∷ [])
unfolding InRange
one-InRange n t h = (h, tt)

by_type :
    (types : List BackupType) (t : ℕ) (chain : List ℕ) (kind : BackupType)
    → ((c : List ℕ) (k : ℕ) → suc k ≡ t → chain_for types k ≡ fine c → InRange (length types) c)
    → get_elem? types t ≡ some kind
    → chain_for types t ≡ fine chain
    → InRange (length types) chain
by_type types t chain full ih at e =
    subst (InRange (length types)) (ok_inj (t ∷ []) chain (sym (chain_for-full types t at) ∙ e))
      (one-InRange (length types) t (there-lt types t full at))
by_type types t chain differential ih at e =
    differential_chain-InRange types t chain (there-lt types t differential at)
      (sym (chain_for-differential types t at) ∙ e)
by_type types zero chain incremental ih at e = incremental_zero types chain at e
by_type types (suc t) chain incremental ih at e =
    after_shorter types t chain (λ c. ih c t refl) (there-lt types (suc t) incremental at)
      (sym (chain_for-incremental types t at) ∙ e)

pub chain_for-InRange :
    (types : List BackupType) (t : ℕ) (chain : List ℕ)
    → chain_for types t ≡ fine chain
    → InRange (length types) chain
chain_for-InRange types zero chain e = elim (Option-cases (get_elem? types 0)) [
  | inl absent ↦ let refused = sym (chain_for-none types 0 absent) ∙ e in cc refused
  | inr (kind, at) ↦ by_type types 0 chain kind (λ c k h. absurd (omega (arith, h))) at e
]
chain_for-InRange types (suc t) chain e = elim (Option-cases (get_elem? types (suc t))) [
  | inl absent ↦ let refused = sym (chain_for-none types (suc t) absent) ∙ e in cc refused
  | inr (kind, at) ↦
      by_type types (suc t) chain kind
        (λ c k h f. chain_for-InRange types t c (ap (chain_for types) (omega (arith, h)) ∙ f)) at e
]
