-- ===== src/Examples/Processes.antt =====
-- A pause at a concrete table of processes, with a loop in it.
use rustcopy.Base.{ℕ, ◌≡◌, ◌↔◌, true, some, List, [], ◌∷◌, nat_eq, contains}
use rustcopy.ProcessTree.{descendants}
use rustcopy.ProcessTree.Table.{Descends, NoRepeat}
use rustcopy.ProcessTree.Reach.{descendants_lem}

abbrev machine : List (ℕ × ℕ)
machine = (2, 1) ∷ (3, 1) ∷ (4, 2) ∷ (9, 8) ∷ (1, 4) ∷ (0, 0) ∷ []

descendants_example :
    (found : List ℕ) × (descendants 1 machine ≡ some found)
    × ((x : ℕ) → (contains found x ≡ true) ↔ Descends 1 machine x)
    × NoRepeat found
descendants_example = descendants_lem 1 machine
