-- ===== src/ProcessTree/Table.antt =====
-- A table of processes: what descends from one of them, and how much of it has not been taken.
use rustcopy.Base.{
  ℕ, suc, ◌≤◌, ◌<◌, ◌≡◌, ◌⊎◌, inl, inr, refl, ◌∙◌, false, ◌||◌, List, [], ◌∷◌, ◌++◌, nat_eq,
  contains, length, if◌then◌else◌, arith,
}

-- A process is in the machine's table.
abbrev pub IsListed : List (ℕ × ℕ) → ℕ → ℕ → Type 0
IsListed [] pid ppid = ⊥
IsListed (process ∷ processes) pid ppid =
    ((process.0 ≡ pid) × (process.1 ≡ ppid)) ⊎ IsListed processes pid ppid

-- The root, and the children of what descends from it.
pub data Descends (root : ℕ) (processes : List (ℕ × ℕ)) : ℕ → Type 0 where
  itself : Descends root processes root
  child :
      (pid parent : ℕ)
      → Descends root processes parent
      → IsListed processes pid parent
      → Descends root processes pid

-- No id stands in the list twice.
abbrev pub NoRepeat : List ℕ → Type 0
NoRepeat [] = Unit
NoRepeat (x ∷ xs) = (contains xs x ≡ false) × NoRepeat xs

pub contains-append :
    (xs ys : List ℕ) (x : ℕ) → contains (xs ++ ys) x ≡ (contains xs x || contains ys x)
contains-append [] ys x = refl
contains-append (y ∷ xs) ys x = ground (arith, contains-append xs ys x)

pub NoRepeat-snoc :
    (xs : List ℕ) (x : ℕ) → NoRepeat xs → contains xs x ≡ false → NoRepeat (xs ++ (x ∷ []))
unfolding nat_eq
NoRepeat-snoc [] x h new = (refl, tt)
NoRepeat-snoc (y ∷ xs) x (h, hs) new = (
  contains-append xs (x ∷ []) y ∙ ground (arith, h, new),
  NoRepeat-snoc xs x hs (ground (arith, new)),
)

-- How many processes of a table are not taken yet.
abbrev pub unseen : List ℕ → List (ℕ × ℕ) → ℕ
unseen seen [] = 0
unseen seen (process ∷ processes) =
    let rest = unseen seen processes in if contains seen process.0 then rest else suc rest

unseen-grows :
    (seen : List ℕ) (x : ℕ) (processes : List (ℕ × ℕ))
    → unseen (x ∷ seen) processes ≤ unseen seen processes
unseen-grows seen x [] = omega arith
unseen-grows seen x (process ∷ processes) = ground (arith, unseen-grows seen x processes)

pub unseen-taken :
    (seen : List ℕ) (processes : List (ℕ × ℕ)) (pid ppid : ℕ)
    → IsListed processes pid ppid
    → contains seen pid ≡ false
    → unseen (pid ∷ seen) processes < unseen seen processes
unfolding nat_eq
unseen-taken seen [] pid ppid h new = absurd h
unseen-taken seen (process ∷ processes) pid ppid (inl (same, _)) new =
    ground (arith, same, new, unseen-grows seen pid processes)
unseen-taken seen (process ∷ processes) pid ppid (inr later) new =
    ground (arith, unseen-taken seen processes pid ppid later new)

pub unseen-length :
    (seen : List ℕ) (processes : List (ℕ × ℕ)) → unseen seen processes ≤ length processes
unseen-length seen [] = omega arith
unseen-length seen (process ∷ processes) = ground (arith, unseen-length seen processes)
