-- ===== src/GenerationRestore/Assign.antt =====
-- What `assign` takes from each folder, and what it reports missing.
use rustcopy.Base.{
  ℕ, zero, suc, ◌<◌, ◌≡◌, ◌∙◌, refl, sym, ap, Bool, false, Option, none, some, List, [], ◌∷◌, ◌++◌,
  length, get_elem?, arith, ◌==◌, nat_eq, if◌then◌else◌, append-nil, append_assoc,
}
use rustcopy.Generations.{RelPath, ScannedFile, GenerationFile}
use rustcopy.GenerationRestore.{
  Newest, insert_folders, source_of, push_step, assign_one, assign_loop, empty_steps, assign,
}
use rustcopy.GenerationRestore.History.{stored}

abbrev append_all : Option (List ScannedFile) → List ScannedFile → Option (List ScannedFile)
append_all none more = none
append_all (some step) more = some (step ++ more)

-- What one listed file adds to the step of folder `i`.
abbrev pub taken_one : ℕ → Option (ℕ × ScannedFile) → List ScannedFile
taken_one i none = []
taken_one i (some (n, held)) = if n == i then held ∷ [] else []

-- The files that are taken from folder `i`, in the order of the listing.
abbrev pub taken : Newest → ℕ → List GenerationFile → List ScannedFile
taken newest i [] = []
taken newest i (w ∷ ws) = taken_one i (source_of newest w) ++ taken newest i ws

abbrev pub unsupplied_one : RelPath → Option (ℕ × ScannedFile) → List RelPath
unsupplied_one path none = path ∷ []
unsupplied_one path (some x) = []

-- The paths of which no folder has a copy of the listed size.
abbrev pub unsupplied : Newest → List GenerationFile → List RelPath
unsupplied newest [] = []
unsupplied newest (w ∷ ws) =
    unsupplied_one w.relative_path (source_of newest w) ++ unsupplied newest ws

same_after :
    (o : Option (List ScannedFile)) (f : List ScannedFile) (b : Bool)
    → b ≡ false
    → o ≡ append_all o (if b then f else [])
same_after none f b h = refl
same_after (some s) f b h = rw h (ap some (sym (append-nil s)))

same_test : (n i : ℕ) → (n == i) ≡ (suc n == suc i)
same_test n i = ground arith

push_step_lem :
    (n : ℕ) (f : ScannedFile) (steps : List (List ScannedFile)) (i : ℕ)
    → get_elem? (push_step n f steps) i
      ≡ append_all (get_elem? steps i) (if n == i then f ∷ [] else [])
unfolding push_step
push_step_lem n f [] i = refl
push_step_lem zero f (s ∷ steps) zero = ground arith
push_step_lem zero f (s ∷ steps) (suc i) =
    same_after (get_elem? steps i) (f ∷ []) (zero == suc i) (ground arith)
push_step_lem (suc n) f (s ∷ steps) zero = ground (arith, append-nil s)
push_step_lem (suc n) f (s ∷ steps) (suc i) =
    push_step_lem n f steps i
    ∙ ap (λ b. append_all (get_elem? steps i) (if b then f ∷ [] else [])) (same_test n i)

append_all_twice :
    (o : Option (List ScannedFile)) (a b : List ScannedFile)
    → append_all (append_all o a) b ≡ append_all o (a ++ b)
append_all_twice none a b = refl
append_all_twice (some s) a b = ap some (append_assoc s a b)

append_all-nil : (o : Option (List ScannedFile)) → append_all o [] ≡ o
append_all-nil none = refl
append_all-nil (some s) = ap some (append-nil s)

assign_one_steps :
    (newest : Newest) (w : GenerationFile) (steps : List (List ScannedFile))
    (missing : List RelPath) (i : ℕ)
    → (get_elem? (assign_one newest w (steps, missing)).0 i
        ≡ append_all (get_elem? steps i) (taken_one i (source_of newest w)))
      × ((assign_one newest w (steps, missing)).1
          ≡ missing ++ unsupplied_one w.relative_path (source_of newest w))
unfolding assign_one
assign_one_steps newest w steps missing i = by_source (source_of newest w) refl
  where
    by_source :
        (o : Option (ℕ × ScannedFile))
        → source_of newest w ≡ o
        → (get_elem? (assign_one newest w (steps, missing)).0 i
            ≡ append_all (get_elem? steps i) (taken_one i o))
          × ((assign_one newest w (steps, missing)).1 ≡ missing ++ unsupplied_one w.relative_path o)
    by_source none e = rw (e, assign_one) (sym (append_all-nil (get_elem? steps i)), refl)
    by_source (some (n, held)) e =
        rw (e, assign_one) (push_step_lem n held steps i, sym (append-nil missing))

assign_loop_lem :
    (newest : Newest) (listing : List GenerationFile) (steps : List (List ScannedFile))
    (missing : List RelPath) (i : ℕ)
    → (get_elem? (assign_loop newest listing (steps, missing)).0 i
        ≡ append_all (get_elem? steps i) (taken newest i listing))
      × ((assign_loop newest listing (steps, missing)).1 ≡ missing ++ unsupplied newest listing)
unfolding assign_loop
assign_loop_lem newest [] steps missing i =
    (sym (append_all-nil (get_elem? steps i)), sym (append-nil missing))
assign_loop_lem newest (w ∷ listing) steps missing i =
    let (steps', missing') = assign_one newest w (steps, missing) in
    let one = assign_one_steps newest w steps missing i in
    let rest = assign_loop_lem newest listing steps' missing' i in
    (
      rest.0
          ∙ ap (λ o. append_all o (taken newest i listing)) one.0
          ∙ append_all_twice (get_elem? steps i) (taken_one i (source_of newest w)) _,
      rest.1
          ∙ ap (λ l. l ++ unsupplied newest listing) one.1
          ∙ append_assoc missing (unsupplied_one w.relative_path (source_of newest w)) _,
    )

empty_step :
    (stored : List (List ScannedFile)) (i : ℕ)
    → i < length stored
    → get_elem? (empty_steps stored) i ≡ some []
empty_step [] i h = absurd (omega arith)
empty_step (s ∷ stored) zero h = refl
empty_step (s ∷ stored) (suc i) h = empty_step stored i (omega arith)

abbrev pub newest_of : List (List ScannedFile) → Newest
newest_of stored = insert_folders 0 stored []

-- What the plan takes from each folder and reports missing, by the map of the newest copies.
pub assign_newest :
    (listing : List GenerationFile) (stored : List (List ScannedFile)) (i : ℕ)
    → i < length stored
    → (get_elem? (assign listing stored).0 i ≡ some (taken (newest_of stored) i listing))
      × ((assign listing stored).1 ≡ unsupplied (newest_of stored) listing)
unfolding assign
assign_newest listing stored i h =
    let both = assign_loop_lem (newest_of stored) listing (empty_steps stored) [] i in
    (
      both.0 ∙ ap (λ o. append_all o (taken (newest_of stored) i listing)) (empty_step stored i h),
      both.1,
    )

pub assign_missing :
    (listing : List GenerationFile) (stored : List (List ScannedFile))
    → (assign listing stored).1 ≡ unsupplied (newest_of stored) listing
unfolding assign
assign_missing listing stored =
    (assign_loop_lem (newest_of stored) listing (empty_steps stored) [] 0).1
