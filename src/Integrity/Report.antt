-- ===== src/Integrity/Report.antt =====
-- What the lists of a report hold: of each kind of error the first ones, up to the limit.
use rustcopy.Base.{
  ℕ, zero, suc, ◌≤◌, ◌≡◌, refl, ◌∙◌, sym, ap, String, List, [], ◌∷◌, ◌++◌, length, take, ltb, arith,
  Bool-cases, inl, inr, append-nil, append_assoc, length-append, ltb→lt,
}
use rustcopy.Integrity.{
  Mismatch, IntegrityCheck, FileVerificationOutcome, matches, mismatch, missing, unread,
  push_capped, record_outcome, record_outcomes,
}

abbrev pub mismatches_of : List FileVerificationOutcome → List Mismatch
mismatches_of [] = []
mismatches_of (mismatch m ∷ results) = m ∷ mismatches_of results
mismatches_of (matches bytes ∷ results) = mismatches_of results
mismatches_of (missing label ∷ results) = mismatches_of results
mismatches_of (unread label ∷ results) = mismatches_of results

abbrev pub missing_of : List FileVerificationOutcome → List String
missing_of [] = []
missing_of (missing label ∷ results) = label ∷ missing_of results
missing_of (matches bytes ∷ results) = missing_of results
missing_of (mismatch m ∷ results) = missing_of results
missing_of (unread label ∷ results) = missing_of results

abbrev pub unread_of : List FileVerificationOutcome → List String
unread_of [] = []
unread_of (unread label ∷ results) = label ∷ unread_of results
unread_of (matches bytes ∷ results) = unread_of results
unread_of (mismatch m ∷ results) = unread_of results
unread_of (missing label ∷ results) = unread_of results

module _ {ℓ} {A : Type ℓ} where
  push_all : ℕ → List A → List A → List A
  push_all limit xs [] = xs
  push_all limit xs (y ∷ ys) = push_all limit (push_capped limit xs y) ys

  pub take_all : (limit : ℕ) (xs : List A) → length xs ≤ limit → take limit xs ≡ xs
  take_all zero [] h = refl
  take_all (suc limit) [] h = refl
  take_all zero (x ∷ xs) h = absurd (omega (arith, h))
  take_all (suc limit) (x ∷ xs) h = ap (λ ys. x ∷ ys) (take_all limit xs (omega (arith, h)))

  pub take_full : (limit : ℕ) (xs ys : List A) → length xs ≡ limit → take limit (xs ++ ys) ≡ xs
  take_full zero [] ys h = refl
  take_full (suc limit) [] ys h = absurd (omega (arith, h))
  take_full zero (x ∷ xs) ys h = absurd (omega (arith, h))
  take_full (suc limit) (x ∷ xs) ys h = ap (λ zs. x ∷ zs) (take_full limit xs ys (omega (arith, h)))

  push_all_full : (limit : ℕ) (xs ys : List A) → limit ≤ length xs → push_all limit xs ys ≡ xs
  unfolding push_all
  push_all_full limit xs [] h = refl
  push_all_full limit xs (y ∷ ys) h = elim (Bool-cases (ltb (length xs) limit)) [
    | inl room ↦ absurd (omega (arith, h, ltb→lt (length xs) limit room))
    | inr full ↦ rw full (push_all_full limit xs ys h)
  ]

  push_all_lem :
      (limit : ℕ) (xs ys : List A)
      → length xs ≤ limit
      → push_all limit xs ys ≡ take limit (xs ++ ys)
  unfolding push_all
  push_all_lem limit xs [] h = rw (append-nil xs) (sym (take_all limit xs h))
  push_all_lem limit xs (y ∷ ys) h = elim (Bool-cases (ltb (length xs) limit)) [
    | inl room ↦ rw room (
        push_all_lem limit (xs ++ y ∷ []) ys
          (omega (arith, length-append xs (y ∷ []), ltb→lt (length xs) limit room))
        ∙ ap (take limit) (append_assoc xs (y ∷ []) ys))
    | inr full ↦ rw full (
        push_all_full limit xs ys (ground (arith, full))
        ∙ sym (take_full limit xs (y ∷ ys) (ground (arith, full, h))))
  ]

mismatches_pushed :
    (limit : ℕ) (check : IntegrityCheck) (results : List FileVerificationOutcome)
    → (record_outcomes limit check results).mismatches
      ≡ push_all limit check.mismatches (mismatches_of results)
unfolding push_all record_outcomes record_outcome
mismatches_pushed limit check [] = refl
mismatches_pushed limit check (matches bytes ∷ results) =
    mismatches_pushed limit (record_outcome limit check (matches bytes)) results
mismatches_pushed limit check (mismatch m ∷ results) =
    mismatches_pushed limit (record_outcome limit check (mismatch m)) results
mismatches_pushed limit check (missing label ∷ results) =
    mismatches_pushed limit (record_outcome limit check (missing label)) results
mismatches_pushed limit check (unread label ∷ results) =
    mismatches_pushed limit (record_outcome limit check (unread label)) results

missing_pushed :
    (limit : ℕ) (check : IntegrityCheck) (results : List FileVerificationOutcome)
    → (record_outcomes limit check results).missing_in_dest
      ≡ push_all limit check.missing_in_dest (missing_of results)
unfolding push_all record_outcomes record_outcome
missing_pushed limit check [] = refl
missing_pushed limit check (matches bytes ∷ results) =
    missing_pushed limit (record_outcome limit check (matches bytes)) results
missing_pushed limit check (mismatch m ∷ results) =
    missing_pushed limit (record_outcome limit check (mismatch m)) results
missing_pushed limit check (missing label ∷ results) =
    missing_pushed limit (record_outcome limit check (missing label)) results
missing_pushed limit check (unread label ∷ results) =
    missing_pushed limit (record_outcome limit check (unread label)) results

unread_pushed :
    (limit : ℕ) (check : IntegrityCheck) (results : List FileVerificationOutcome)
    → (record_outcomes limit check results).unreadable
      ≡ push_all limit check.unreadable (unread_of results)
unfolding push_all record_outcomes record_outcome
unread_pushed limit check [] = refl
unread_pushed limit check (matches bytes ∷ results) =
    unread_pushed limit (record_outcome limit check (matches bytes)) results
unread_pushed limit check (mismatch m ∷ results) =
    unread_pushed limit (record_outcome limit check (mismatch m)) results
unread_pushed limit check (missing label ∷ results) =
    unread_pushed limit (record_outcome limit check (missing label)) results
unread_pushed limit check (unread label ∷ results) =
    unread_pushed limit (record_outcome limit check (unread label)) results

-- The lists, from an empty report.
pub record Reported (limit : ℕ) (check : IntegrityCheck) (results : List FileVerificationOutcome)
    : Type 0 where
  pub mismatches : check.mismatches ≡ take limit (mismatches_of results)
  pub missing_in_dest : check.missing_in_dest ≡ take limit (missing_of results)
  pub unreadable : check.unreadable ≡ take limit (unread_of results)

pub record_outcomes-Reported :
    (limit : ℕ) (blank : IntegrityCheck) (results : List FileVerificationOutcome)
    → blank.mismatches ≡ []
    → blank.missing_in_dest ≡ []
    → blank.unreadable ≡ []
    → Reported limit (record_outcomes limit blank results) results
record_outcomes-Reported limit blank results h₁ h₂ h₃ = record {
  mismatches =
      mismatches_pushed limit blank results
      ∙ ap (λ xs. push_all limit xs (mismatches_of results)) h₁
      ∙ push_all_lem limit [] (mismatches_of results) (omega arith);
  missing_in_dest =
      missing_pushed limit blank results
      ∙ ap (λ xs. push_all limit xs (missing_of results)) h₂
      ∙ push_all_lem limit [] (missing_of results) (omega arith);
  unreadable =
      unread_pushed limit blank results
      ∙ ap (λ xs. push_all limit xs (unread_of results)) h₃
      ∙ push_all_lem limit [] (unread_of results) (omega arith);
}
