-- ===== src/Queue.antt =====
-- The places in a batch: crates/rustcopy-ui/src/queue.rs.
pub mod Order
use rustcopy.Base.{
  ℕ, zero, suc, ◌+◌, min, max, Bool, true, false, Option, none, some, List, [], ◌∷◌, map, ◌==◌,
  nat_eq, ltb, if◌then◌else◌,
}

pub data QueueState : Type 0 where
  waiting running done : QueueState

-- `total` positions from `first`
abbrev pub positions : ℕ → ℕ → List ℕ
positions first zero = []
positions first (suc total) = first ∷ positions (suc first) total

abbrev pub unwrap_or_one : Option ℕ → ℕ
unwrap_or_one none = 1
unwrap_or_one (some n) = n

-- `clamp(1, total.max(1))`
abbrev pub running_at : ℕ → Option ℕ → ℕ
running_at total current = min (max (unwrap_or_one current) 1) (max total 1)

abbrev pub state_at : ℕ → ℕ → QueueState
state_at now position =
    if ltb position now then done else if position == now then running else waiting

unfoldable pub states : ℕ → Option ℕ → List QueueState
states total current = map (state_at (running_at total current)) (positions 1 total)
