-- ===== src/ExitCode/Laws.antt =====
-- What the classification of exit codes promises to the retry loop and to the report.
use rustcopy.Base.{
  ◌⊎◌, inl, inr, Bool-cases, ℕ, zero, suc, ◌≤◌, ◌≡◌, ◌≢◌, ◌∙◌, append-nil, ◌↔◌, refl, Bool, true,
  false, arith, ℤ, pos, negsuc, List, [], ◌∷◌, ◌++◌, String, ◌/◌, ◌*◌, ◌%◌,
}
use rustcopy.ExitCode.{
  status_of, is_success, should_retry, copy_errors, fatal, known_parts, describe, parts, in_sync,
  phrase, has,
}

-- A code counts as a success exactly when it lies from 0 to 7. Such a code has neither error bit,
-- and is not retried.
pub success_range :
    (code : ℤ)
    → ((is_success (status_of code) ≡ true) ↔ ((n : ℕ) × (code ≡ pos n) × (n ≤ 7)))
      × ((is_success (status_of code) ≡ false)
          ⊎ ((copy_errors (status_of code) ≡ false)
              × (fatal (status_of code) ≡ false)
              × (should_retry (status_of code) ≡ false)))
unfolding is_success copy_errors fatal should_retry
success_range (pos n) = (
  (λ h. (n, refl, ground arith), λ (m, e, small). ground arith),
  elim (Bool-cases (is_success (status_of (pos n)))) [
    | inr fails ↦ inl fails
    | inl succeeds ↦
        inr (ground (arith, succeeds), ground (arith, succeeds), ground (arith, succeeds))
  ],
)
success_range (negsuc n) = ((λ h. cc, λ (m, e, small). cc), inl refl)

-- A code with none of the five bits and no other bit is 0.
no_bits : (n : ℕ) → n % 32 ≡ 0 → n / 32 * 32 ≡ 0 → n ≡ 0
no_bits n low high = omega arith

low_bits :
    (n : ℕ)
    → n / 1 % 2 ≡ 0
    → n / 2 % 2 ≡ 0
    → n / 4 % 2 ≡ 0
    → n / 8 % 2 ≡ 0
    → n / 16 % 2 ≡ 0
    → n % 32 ≡ 0
low_bits n a b c d e = omega arith

cons-ne-nil {ℓ} : {A : Type ℓ} {x : A} {xs : List A} → (x ∷ xs) ≢ []
cons-ne-nil h = cc

phrase-eq-nil :
    (b : Bool) (t : String) (rest : List String)
    → phrase b t ++ rest ≡ []
    → (b ≡ false) × (rest ≡ [])
phrase-eq-nil true t rest h = absurd (cons-ne-nil h)
phrase-eq-nil false t rest h = (refl, h)

bit_clear : (n bit : ℕ) → has (status_of (pos n)) bit ≡ false → n / bit % 2 ≡ 0
unfolding has
bit_clear n bit h = ground arith

known_parts-eq-nil : (n : ℕ) → known_parts (status_of (pos n)) ≡ [] → n % 32 ≡ 0
unfolding known_parts
known_parts-eq-nil n h =
    let a = phrase-eq-nil _ _ _ h in
    let b = phrase-eq-nil _ _ _ a.1 in
    let c = phrase-eq-nil _ _ _ b.1 in
    let d = phrase-eq-nil _ _ _ c.1 in
    let e = phrase-eq-nil (fatal (status_of (pos n))) _ [] (append-nil _ ∙ d.1) in
    low_bits n (bit_clear n 1 a.0) (bit_clear n 2 b.0) (bit_clear n 4 c.0) (bit_clear n 8 d.0)
      (bit_clear n 16 e.0)

-- `describe` never gives an empty list of phrases, and says "in sync" of the code 0 alone.
pub describe_informative :
    (code : ℤ)
    → (describe (status_of code) ≢ parts [])
      × ((describe (status_of code) ≡ in_sync) ↔ (code ≡ pos 0))
unfolding describe
describe_informative (pos zero) = (λ h. cc, (λ h. refl, λ h. refl))
describe_informative (pos (suc n)) = (
  λ h. ground (arith, known_parts-eq-nil (suc n), no_bits (suc n)),
  (λ h. ground arith, λ h. ground arith),
)
describe_informative (negsuc n) = (λ h. cc, (λ h. cc, λ h. cc))
