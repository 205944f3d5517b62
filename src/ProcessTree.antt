-- ===== src/ProcessTree.antt =====
-- The processes that a pause stops: `descendants` of crates/rustcopy-ui/src/suspend.rs. The list
-- `found` is in two parts, before and from the index `next`.
pub mod Table
pub mod Reach
use rustcopy.Base.{
  ℕ, zero, suc, Bool, true, false, not, ◌&&◌, Option, none, some, List, [], ◌∷◌, ◌++◌, ◌==◌, nat_eq,
  contains, length, if◌then◌else◌,
}

-- What is found and still to be visited, and every id that was taken.
pub record Walk : Type 0 where
  pub pending : List ℕ
  pub seen : List ℕ

-- `ppid == parent && pid != parent && seen.insert(pid)`
abbrev pub is_new_child : ℕ → ℕ × ℕ → List ℕ → Bool
is_new_child parent (pid, ppid) seen =
    ppid == parent && not (pid == parent) && not (contains seen pid)

abbrev pub take_child : ℕ → ℕ × ℕ → Walk → Walk
take_child parent process w =
    if is_new_child parent process w.seen
    then record { pending = w.pending ++ (process.0 ∷ []); seen = process.0 ∷ w.seen }
    else w

-- One pass over the machine's processes, for one parent.
unfoldable pub take_children : ℕ → List (ℕ × ℕ) → Walk → Walk
take_children parent [] w = w
take_children parent (process ∷ processes) w =
    take_children parent processes (take_child parent process w)

-- The loop, as far as its fuel: none if that runs out.
unfoldable pub walk : ℕ → List (ℕ × ℕ) → List ℕ → List ℕ → List ℕ → Option (List ℕ)
walk fuel processes visited [] seen = some visited
walk zero processes visited (parent ∷ pending) seen = none
walk (suc fuel) processes visited (parent ∷ pending) seen =
    let w = take_children parent processes (record { pending = pending; seen = seen }) in
    walk fuel processes (visited ++ (parent ∷ [])) w.pending w.seen

unfoldable pub descendants : ℕ → List (ℕ × ℕ) → Option (List ℕ)
descendants root processes = walk (suc (length processes)) processes [] (root ∷ []) (root ∷ [])
