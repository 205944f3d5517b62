-- ===== src/CopyPlan/Clear.antt =====
-- A copy that is planned goes nowhere inside what it copies.
use rustcopy.Base.{
  append-nil, ne_of_test, ◌≢◌, ◌≡◌, refl, ◌∙◌, sym, ap, String, true, false, List, [], ◌∷◌, ◌++◌,
  map, All, ◌==◌, nat_eq, string_eq, list_eq, Bool-cases, inl, inr, subst, ok, ◌>>◌, >>=-ok,
}
use rustcopy.JobEditor.{refuse_if}
use rustcopy.CopyPlan.{
  folder_name, is_nil, within, join, is_bare_drive, path_parts, is_same_or_inside, plan_sources,
  check_planned, plan_copy,
}
use rustcopy.CopyPlan.Prefix.{within-append, within-snoc, snoc-last}
use rustcopy.CopyPlan.Placed.{
  Named, Placed, key, Apart, plan_sources_lem, check_planned_lem, path_parts-Placed,
  path_parts-source,
}

within_self : (xs : List String) → is_nil xs ≡ false → within xs xs ≡ true
within_self xs filled = ap (λ l. within l xs) (sym (append-nil xs)) ∙ within-append xs [] filled

snoc-not-nil : (xs : List String) (x : String) → is_nil (xs ++ (x ∷ [])) ≡ false
snoc-not-nil [] x = refl
snoc-not-nil (y ∷ xs) x = refl

module _ (to_lowercase : String → String) where
  -- Where a destination lies inside a source, the source has its parts.
  met :
      (root : String) (a b : String × String)
      → is_bare_drive root ≡ false
      → Placed to_lowercase root a
      → Placed to_lowercase root b
      → is_same_or_inside to_lowercase a.1 b.0 ≡ true
      → path_parts to_lowercase b.0 ≡ path_parts to_lowercase root ++ (key to_lowercase a ∷ [])
  unfolding is_same_or_inside
  met root a b bare p q inside =
      let (before, parts) = path_parts-source to_lowercase root b q in
      let filled : is_nil (path_parts to_lowercase b.0) ≡ false =
        ap is_nil parts ∙ snoc-not-nil before (key to_lowercase b) in
      elim (within-snoc (path_parts to_lowercase root) (path_parts to_lowercase b.0)
        (key to_lowercase a) filled
        (ap (λ l. within l (path_parts to_lowercase b.0))
            (sym (path_parts-Placed to_lowercase root a bare p))
          ∙ inside)) [ inl root_inside ↦ cc (root_inside, q.outside) | inr same ↦ same ]

  Outside : String × String → String × String → Type 0
  Outside a b = is_same_or_inside to_lowercase a.1 b.0 ≡ false

  apart-Outside :
      (root : String) (a b : String × String)
      → is_bare_drive root ≡ false
      → Placed to_lowercase root a
      → Placed to_lowercase root b
      → key to_lowercase a ≢ key to_lowercase b
      → Outside a b
  unfolding Outside
  apart-Outside root a b bare p q differ =
      elim (Bool-cases (is_same_or_inside to_lowercase a.1 b.0)) [
        | inr outside ↦ outside
        | inl inside ↦
            let (before, parts) = path_parts-source to_lowercase root b q in
            let same =
              snoc-last (path_parts to_lowercase root) before (key to_lowercase a)
                (key to_lowercase b) (sym (met root a b bare p q inside) ∙ parts) in
            absurd (differ same)
      ]

  own-Outside :
      (root : String) (a : String × String)
      → is_bare_drive root ≡ false
      → Placed to_lowercase root a
      → is_same_or_inside to_lowercase a.0 a.1 ≡ false
      → Outside a a
  unfolding Outside is_same_or_inside
  own-Outside root a bare p clear = elim (Bool-cases (is_same_or_inside to_lowercase a.1 a.0)) [
    | inr outside ↦ outside
    | inl inside ↦
        let source_parts = met root a a bare p p inside in
        let dest_parts = path_parts-Placed to_lowercase root a bare p in
        let filled : is_nil (path_parts to_lowercase a.1) ≡ false =
          ap is_nil dest_parts ∙ snoc-not-nil (path_parts to_lowercase root) (key to_lowercase a) in
        let whole =
          ap (λ l. within l (path_parts to_lowercase a.1)) (source_parts ∙ sym dest_parts)
          ∙ within_self (path_parts to_lowercase a.1) filled in
        cc (whole, clear)
  ]

  -- A pair against others with other names, both ways.
  against :
      (root : String) (a : String × String) (pairs : List (String × String))
      → is_bare_drive root ≡ false
      → Placed to_lowercase root a
      → All (Placed to_lowercase root) pairs
      → All (λ q. (key to_lowercase q == key to_lowercase a) ≡ false) pairs
      → All (Outside a) pairs × All (λ q. Outside q a) pairs
  against root a [] bare p ps differ = (tt, tt)
  against root a (q ∷ pairs) bare p (placed, ps) (differs, differ) =
      let (row, column) = against root a pairs bare p ps differ in
      let other : key to_lowercase q ≢ key to_lowercase a =
        ne_of_test (key to_lowercase q) (key to_lowercase a) differs in
      (
        (apart-Outside root a q bare p placed (λ same. other (sym same)), row),
        (apart-Outside root q a bare placed p other, column),
      )

  with_column :
      (a : String × String) (pairs all : List (String × String))
      → All (λ q. Outside q a) pairs
      → All (λ q. All (Outside q) all) pairs
      → All (λ q. All (Outside q) (a ∷ all)) pairs
  with_column a [] all h k = tt
  with_column a (q ∷ pairs) all (h, hs) (k, ks) = ((h, k), with_column a pairs all hs ks)

  all_Outside :
      (root : String) (pairs : List (String × String))
      → is_bare_drive root ≡ false
      → All (Placed to_lowercase root) pairs
      → Apart to_lowercase pairs
      → All (λ pair. is_same_or_inside to_lowercase pair.0 pair.1 ≡ false) pairs
      → All (λ a. All (Outside a) pairs) pairs
  all_Outside root [] bare ps apart clear = tt
  all_Outside root (a ∷ pairs) bare (p, ps) (differ, apart) (own, clear) =
      let (row, column) = against root a pairs bare p ps differ in
      (
        (own-Outside root a bare p own, row),
        with_column a pairs pairs column (all_Outside root pairs bare ps apart clear),
      )

  All-Placed :
      (root : String) (pairs : List (String × String))
      → All (Placed to_lowercase root) pairs
      → All (λ pair. pair.1 ≡ join root (folder_name pair.0)) pairs
  All-Placed root [] h = tt
  All-Placed root (pair ∷ pairs) (p, ps) = (p.placed, All-Placed root pairs ps)

-- A copy that is planned has one pair for each chosen folder, in their order, whose destination is
-- the folder's own name joined to the chosen destination; no two folders have one name, whatever
-- its case; and no destination is a chosen folder or lies inside one. (Each folder's path ends with
-- its name, not with a dot, the name starts with no drive, and the chosen destination is no bare
-- drive.)
pub plan_copy_lem :
    (to_lowercase : String → String) (sources : List String) (dest_root : String)
    (planned : List (String × String))
    → All Named sources
    → is_bare_drive dest_root ≡ false
    → plan_copy to_lowercase sources dest_root ≡ ok planned
    → (map (λ pair. pair.0) planned ≡ sources)
      × All (λ pair. pair.1 ≡ join dest_root (folder_name pair.0)) planned
      × Apart to_lowercase planned
      × All (λ a. All (λ b. is_same_or_inside to_lowercase a.1 b.0 ≡ false) planned) planned
unfolding plan_copy Outside
plan_copy_lem to_lowercase sources dest_root planned named bare h =
    let (_, _, h₂) =
      >>=-ok
        (refuse_if (is_nil sources) _ >> refuse_if (is_nil (path_parts to_lowercase dest_root)) _) _
        h in
    let (planned', went, h₃) = >>=-ok (plan_sources to_lowercase dest_root [] sources) _ h₂ in
    let (_, clear, made) = >>=-ok (check_planned to_lowercase planned') _ h₃ in
    let same : planned' ≡ planned = cc made in
    let (froms, placed, _, apart) =
      plan_sources_lem to_lowercase dest_root [] sources planned' went named in
    subst
      (λ ps.
        (map (λ pair. pair.0) ps ≡ sources)
        × All (λ pair. pair.1 ≡ join dest_root (folder_name pair.0)) ps
        × Apart to_lowercase ps
        × All (λ a. All (λ b. is_same_or_inside to_lowercase a.1 b.0 ≡ false) ps) ps)
      same
      (
        froms,
        All-Placed to_lowercase dest_root planned' placed,
        apart,
        all_Outside to_lowercase dest_root planned' bare placed apart
            (check_planned_lem to_lowercase planned' clear),
      )
