-- ===== src/CopyPlan/Prefix.antt =====
-- Lists of parts that lie within one another.
use rustcopy.Base.{
  ℕ, zero, suc, ◌≡◌, refl, ◌∙◌, sym, ap, String, true, false, List, [], ◌∷◌, ◌++◌, length, take,
  drop, string_eq, list_eq, leb, arith, inl, inr, ◌⊎◌, eq_of_test, eq_self, length-append,
}
use rustcopy.CopyPlan.{is_nil, within}

take-drop : (n : ℕ) (xs : List String) → xs ≡ take n xs ++ drop n xs
take-drop zero xs = refl
take-drop (suc n) [] = refl
take-drop (suc n) (x ∷ xs) = ap (λ l. x ∷ l) (take-drop n xs)

take-length : (xs ys : List String) → take (length xs) (xs ++ ys) ≡ xs
take-length [] ys = refl
take-length (x ∷ xs) ys = ap (λ l. x ∷ l) (take-length xs ys)

pub within-append :
    (outer rest : List String) → is_nil outer ≡ false → within (outer ++ rest) outer ≡ true
unfolding within
within-append outer rest filled =
    let long : leb (length outer) (length (outer ++ rest)) ≡ true =
      ground (arith, length-append outer rest) in
    rw filled (rw (long, take-length outer rest) (rw (eq_self outer) refl))

within-rest :
    (inner outer : List String)
    → within inner outer ≡ true
    → inner ≡ outer ++ drop (length outer) inner
unfolding within
within-rest inner outer h =
    take-drop (length outer) inner
    ∙ ap (λ l. l ++ drop (length outer) inner)
        (eq_of_test (take (length outer) inner) outer (ground (arith, h)))

-- A list with one element more begins with another: the shorter one does, or they are the same.
shortened :
    (outer root rest : List String) (last : String)
    → root ++ (last ∷ []) ≡ outer ++ rest
    → ((less : List String) × (root ≡ outer ++ less)) ⊎ (outer ≡ root ++ (last ∷ []))
shortened [] root rest last h = inl (root, refl)
shortened (o ∷ []) [] rest last h = let same : last ≡ o = cc h in inr (ap (λ x. x ∷ []) (sym same))
shortened (o ∷ next ∷ outer) [] rest last h = cc h
shortened (o ∷ outer) (r ∷ root) rest last h =
    let first : r ≡ o = cc h in
    let tails : root ++ (last ∷ []) ≡ outer ++ rest = cc h in
    elim (shortened outer root rest last tails) [
      | inl (less, same) ↦ inl (less, ap (λ x. x ∷ root) first ∙ ap (λ l. o ∷ l) same)
      | inr same ↦ inr (ap (λ x. x ∷ outer) (sym first) ∙ ap (λ l. r ∷ l) same)
    ]

-- What lies within a list and one part more lies in the list, or is all of it.
pub within-snoc :
    (root outer : List String) (last : String)
    → is_nil outer ≡ false
    → within (root ++ (last ∷ [])) outer ≡ true
    → (within root outer ≡ true) ⊎ (outer ≡ root ++ (last ∷ []))
within-snoc root outer last filled h =
    elim (shortened outer root _ last (within-rest (root ++ (last ∷ [])) outer h)) [
      | inl (less, same) ↦ inl (ap (λ l. within l outer) same ∙ within-append outer less filled)
      | inr same ↦ inr same
    ]

pub snoc-last : (xs ys : List String) (x y : String) → xs ++ (x ∷ []) ≡ ys ++ (y ∷ []) → x ≡ y
snoc-last [] [] x y h = cc h
snoc-last [] (b ∷ []) x y h = cc h
snoc-last [] (b ∷ c ∷ ys) x y h = cc h
snoc-last (a ∷ []) [] x y h = cc h
snoc-last (a ∷ c ∷ xs) [] x y h = cc h
snoc-last (a ∷ xs) (b ∷ ys) x y h =
    let tails : xs ++ (x ∷ []) ≡ ys ++ (y ∷ []) = cc h in snoc-last xs ys x y tails
