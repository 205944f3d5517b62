-- ===== src/Generations/Cycles.antt =====
-- `cycle_ranges` against a description of cycles by recursion on the history.
use rustcopy.Base.{
  ℕ, suc, ◌+◌, ◌-◌, All, ◌≡◌, ◌∙◌, refl, sym, ap, Bool, true, false, not, ◌&&◌, List, [], ◌∷◌, ◌++◌,
  map, length, take, drop, ltb, ◌==◌, nat_eq, arith, length-append, append-nil, append_assoc,
  Bool-cases, eq_of_test, eq_self, subst, inl, inr, if◌then◌else◌,
}
use mathlib.Core.List.{map-append}
use rustcopy.Generations.{BackupType, full, backup_type_eq, cycle_loop, cycle_ranges, slice}

All-snoc {ℓ κ} :
    {A : Type ℓ} (P : A → Type κ) (xs : List A) (x : A) → All P xs → P x → All P (xs ++ (x ∷ []))
All-snoc P [] x h p = (p, tt)
All-snoc P (y ∷ xs) x (q, h) p = (q, All-snoc P xs x h p)

test_of_eq : {t : BackupType} → t ≡ full → (t == full) ≡ true
test_of_eq e = rw e (eq_self full)

true≢false : true ≡ false → ⊥
true≢false h = cc

-- The cycles of a history, by recursion: `current` is the one being read.
module _ {ℓ} {A : Type ℓ} (type_of : A → BackupType) where
  abbrev is_nil : List A → Bool
  is_nil [] = true
  is_nil (_ ∷ _) = false

  abbrev pub split_cycles : List A → List A → List (List A)
  split_cycles [] [] = []
  split_cycles (c ∷ current) [] = (c ∷ current) ∷ []
  split_cycles current (g ∷ rest) =
      let cut = split_cycles (g ∷ []) rest in
      let go_on = split_cycles (current ++ (g ∷ [])) rest in
      if type_of g == full && not (is_nil current) then current ∷ cut else go_on

  take_append : (xs ys : List A) → take (length xs) (xs ++ ys) ≡ xs
  take_append [] ys = refl
  take_append (x ∷ xs) ys = ap (λ t. x ∷ t) (take_append xs ys)

  drop_append : (xs ys : List A) → drop (length xs) (xs ++ ys) ≡ ys
  drop_append [] ys = refl
  drop_append (x ∷ xs) ys = drop_append xs ys

  slice_middle :
      (done current rest : List A) (from to : ℕ)
      → from ≡ length done
      → to ≡ length done + length current
      → slice (done ++ (current ++ rest)) (from, to) ≡ current
  slice_middle done current rest from to p q =
      let width : to - from ≡ length current = omega arith in
      rw (width, p, drop_append done (current ++ rest)) (take_append current rest)

  cut_at_nil : (g : A) (rest : List A) → split_cycles [] (g ∷ rest) ≡ split_cycles (g ∷ []) rest
  cut_at_nil g rest = ground arith

  split_cut :
      (c : A) (current : List A) (g : A) (rest : List A)
      → (type_of g == full) ≡ true
      → split_cycles (c ∷ current) (g ∷ rest) ≡ (c ∷ current) ∷ split_cycles (g ∷ []) rest
  split_cut c current g rest f = λ k.
      if f k && true
      then (c ∷ current) ∷ split_cycles (g ∷ []) rest
      else split_cycles (c ∷ current ++ (g ∷ [])) rest

  split_go :
      (c : A) (current : List A) (g : A) (rest : List A)
      → (type_of g == full) ≡ false
      → split_cycles (c ∷ current) (g ∷ rest) ≡ split_cycles (c ∷ current ++ (g ∷ [])) rest
  split_go c current g rest f = λ k.
      if f k && true
      then (c ∷ current) ∷ split_cycles (g ∷ []) rest
      else split_cycles (c ∷ current ++ (g ∷ [])) rest

  loop_cut :
      (i start : ℕ) (result : List (ℕ × ℕ)) (t : BackupType) (types : List BackupType)
      → (t == full && not (i == start)) ≡ true
      → cycle_loop i start result (t ∷ types)
        ≡ cycle_loop (suc i) i (result ++ ((start, i) ∷ [])) types
  unfolding cycle_loop
  loop_cut i start result t types h = λ k.
      cycle_loop (suc i) (if h k then i else start)
        (if h k then result ++ ((start, i) ∷ []) else result) types

  loop_go :
      (i start : ℕ) (result : List (ℕ × ℕ)) (t : BackupType) (types : List BackupType)
      → (t == full && not (i == start)) ≡ false
      → cycle_loop i start result (t ∷ types) ≡ cycle_loop (suc i) start result types
  unfolding cycle_loop
  loop_go i start result t types h = λ k.
      cycle_loop (suc i) (if h k then i else start)
        (if h k then result ++ ((start, i) ∷ []) else result) types

  loop-eq-split :
      (all done current rest : List A) (i start : ℕ) (result : List (ℕ × ℕ))
      → all ≡ done ++ (current ++ rest)
      → start ≡ length done
      → i ≡ length done + length current
      → map (slice all) (cycle_loop i start result (map type_of rest))
        ≡ map (slice all) result ++ split_cycles current rest
  loop-eq-split all done [] [] i start result e p q =
      let test : ltb start i ≡ false = ground arith in
      unfold cycle_loop in rw (test, append-nil) refl
  loop-eq-split all done (c ∷ current) [] i start result e p q =
      let test : ltb start i ≡ true = ground arith in
      unfold cycle_loop in
      rw (test, map-append)
        (ap (λ t. map (slice all) result ++ (t ∷ []))
          (rw e (slice_middle done (c ∷ current) [] start i p q)))
  loop-eq-split all done [] (g ∷ rest) i start result e p q =
      let same : (type_of g == full && not (i == start)) ≡ false = ground arith in
      ap (map (slice all)) (loop_go i start result (type_of g) (map type_of rest) same)
      ∙ loop-eq-split all done (g ∷ []) rest (suc i) start result e p (omega arith)
      ∙ ap (λ t. map (slice all) result ++ t) (sym (cut_at_nil g rest))
  loop-eq-split all done (c ∷ current) (g ∷ rest) i start result e p q =
      let ih_cut =
        loop-eq-split all (done ++ (c ∷ current)) (g ∷ []) rest (suc i) i
          (result ++ ((start, i) ∷ [])) (e ∙ sym (append_assoc done (c ∷ current) (g ∷ rest)))
          (q ∙ sym (length-append done (c ∷ current)))
          (omega (arith, length-append done (c ∷ current))) in
      let ih_go =
        loop-eq-split all done (c ∷ current ++ (g ∷ [])) rest (suc i) start result
          (e ∙ ap (λ t. done ++ t) (sym (append_assoc (c ∷ current) (g ∷ []) rest))) p
          (omega (arith, length-append (c ∷ current) (g ∷ []))) in
      let middle : slice all (start, i) ≡ c ∷ current =
        rw e (slice_middle done (c ∷ current) (g ∷ rest) start i p q) in
      elim (Bool-cases (type_of g == full)) [
        | inl f ↦
            ap (map (slice all))
              (loop_cut i start result (type_of g) (map type_of rest) (ground (arith, f)))
            ∙ ih_cut
            ∙ ap (λ t. t ++ split_cycles (g ∷ []) rest)
                (map-append (slice all) result ((start, i) ∷ []))
            ∙ append_assoc (map (slice all) result) (slice all (start, i) ∷ []) _
            ∙ ap (λ t. map (slice all) result ++ (t ∷ split_cycles (g ∷ []) rest)) middle
            ∙ ap (λ t. map (slice all) result ++ t) (sym (split_cut c current g rest f))
        | inr f ↦
            ap (map (slice all))
              (loop_go i start result (type_of g) (map type_of rest) (ground (arith, f)))
            ∙ ih_go
            ∙ ap (λ t. map (slice all) result ++ t) (sym (split_go c current g rest f))
      ]

  -- The slices that the ranges cut out of a history are its cycles.
  pub cycle_ranges-eq-split :
      (all : List A) → map (slice all) (cycle_ranges (map type_of all)) ≡ split_cycles [] all
  unfolding cycle_ranges
  cycle_ranges-eq-split all = loop-eq-split all [] [] all 0 0 [] refl refl refl

  abbrev pub IsFull : A → Type 0
  IsFull g = type_of g ≡ full

  -- A cycle has a first generation, and no other one is full.
  abbrev pub IsCycle : List A → Type 0
  IsCycle [] = ⊥
  IsCycle (g ∷ rest) = All (λ x. ¬ IsFull x) rest

  abbrev pub StartsFull : List A → Type 0
  StartsFull [] = ⊥
  StartsFull (g ∷ rest) = IsFull g

  abbrev pub AllButFirst : List (List A) → Type 0
  AllButFirst [] = Unit
  AllButFirst (c ∷ cs) = All StartsFull cs

  abbrev pub concat : List (List A) → List A
  concat [] = []
  concat (c ∷ cs) = c ++ concat cs

  pub concat-split : (current rest : List A) → concat (split_cycles current rest) ≡ current ++ rest
  concat-split [] [] = refl
  concat-split (c ∷ current) [] = refl
  concat-split [] (g ∷ rest) = ap concat (cut_at_nil g rest) ∙ concat-split (g ∷ []) rest
  concat-split (c ∷ current) (g ∷ rest) =
      let ih_cut = concat-split (g ∷ []) rest in
      let ih_go = concat-split (c ∷ current ++ (g ∷ [])) rest in
      elim (Bool-cases (type_of g == full)) [
        | inl f ↦ ap concat (split_cut c current g rest f) ∙ ap (λ t. c ∷ current ++ t) ih_cut
        | inr f ↦
            ap concat (split_go c current g rest f)
            ∙ ih_go
            ∙ append_assoc (c ∷ current) (g ∷ []) rest
      ]

  split-AllButFirst :
      (c : A) (current rest : List A)
      → (cs : List (List A)) × (d : List A) × (split_cycles (c ∷ current) rest ≡ (c ∷ d) ∷ cs)
        × All StartsFull cs
  split-AllButFirst c current [] = ([], current, refl, tt)
  split-AllButFirst c current (g ∷ rest) =
      let (cs, d, e, h) = split-AllButFirst g [] rest in
      let (cs', d', e', h') = split-AllButFirst c (current ++ (g ∷ [])) rest in
      elim (Bool-cases (type_of g == full)) [
        | inl f ↦ (
          (g ∷ d) ∷ cs,
          current,
          split_cut c current g rest f ∙ ap (λ t. (c ∷ current) ∷ t) e,
          (eq_of_test (type_of g) full f, h),
        )
        | inr f ↦ (cs', d', split_go c current g rest f ∙ e', h')
      ]

  split-IsCycle :
      (c : A) (current rest : List A)
      → All (λ x. ¬ IsFull x) current
      → All IsCycle (split_cycles (c ∷ current) rest)
  split-IsCycle c current [] h = (h, tt)
  split-IsCycle c current (g ∷ rest) h =
      let cut = split-IsCycle g [] rest tt in
      elim (Bool-cases (type_of g == full)) [
        | inl f ↦ subst (All IsCycle) (sym (split_cut c current g rest f)) (h, cut)
        | inr f ↦ subst (All IsCycle) (sym (split_go c current g rest f)) (
            split-IsCycle c (current ++ (g ∷ [])) rest
              (All-snoc _ current g h (λ e. true≢false (sym (test_of_eq e) ∙ f))))
      ]

  pub cycles-IsCycle : (all : List A) → All IsCycle (split_cycles [] all)
  cycles-IsCycle [] = tt
  cycles-IsCycle (g ∷ rest) =
      subst (All IsCycle) (sym (cut_at_nil g rest)) (split-IsCycle g [] rest tt)

  pub cycles-AllButFirst : (all : List A) → AllButFirst (split_cycles [] all)
  cycles-AllButFirst [] = tt
  cycles-AllButFirst (g ∷ rest) =
      let (cs, d, e, h) = split-AllButFirst g [] rest in
      subst AllButFirst (sym (cut_at_nil g rest ∙ e)) h
