-- ===== src/Queue/Order.antt =====
-- A batch is the jobs that are done, the one that runs, and those that wait.
use rustcopy.Base.{
  le_or_lt, ◌⊎◌, inl, inr, ℕ, zero, suc, ◌+◌, ◌-◌, ◌<◌, ◌≡◌, ◌∙◌, refl, sym, ap, Option, List, [],
  ◌∷◌, ◌++◌, map, nat_eq, arith,
}
use rustcopy.Queue.{
  QueueState, positions, unwrap_or_one, running_at, state_at, states, waiting, running, done,
}

abbrev pub copies : ℕ → QueueState → List QueueState
copies zero s = []
copies (suc n) s = s ∷ copies n s

after :
    (now first total : ℕ)
    → now < first
    → map (state_at now) (positions first total) ≡ copies total waiting
after now first zero h = refl
after now first (suc total) h =
    let first_waits : state_at now first ≡ waiting = ground (arith, h) in
    rw first_waits (ap (λ l. waiting ∷ l) (after now (suc first) total (omega (arith, h))))

zero_plus : (n : ℕ) → zero + suc n ≡ suc n
zero_plus n = omega arith

suc_plus : (m n : ℕ) → suc m + suc n ≡ suc (m + suc n)
suc_plus m n = omega arith

from :
    (now first before rest : ℕ)
    → first + before ≡ now
    → map (state_at now) (positions first (before + suc rest))
      ≡ copies before done ++ (running ∷ copies rest waiting)
from now first zero rest h =
    let here : state_at now first ≡ running = ground (arith, h) in
    rw (zero_plus rest, here)
      (ap (λ l. running ∷ l) (after now (suc first) rest (omega (arith, h))))
from now first (suc before) rest h =
    let past : state_at now first ≡ done = ground (arith, h) in
    rw (suc_plus before rest, past)
      (ap (λ l. done ∷ l) (from now (suc first) before rest (omega (arith, h))))

-- When a batch of at least one job is on a job, exactly one is running, at the place asked for
-- when there is such a place; those before it are done and those after it wait.
pub states_lem :
    (total : ℕ) (current : Option ℕ)
    → 0 < total
    → (before rest : ℕ) × (states total current
        ≡ copies before done ++ (running ∷ copies rest waiting))
      × (before + suc rest ≡ total)
      × ((suc before ≡ unwrap_or_one current)
          ⊎ (unwrap_or_one current ≡ 0)
          ⊎ (total < unwrap_or_one current))
unfolding states
states_lem total current pos =
    let now = running_at total current in
    let split : (now - 1) + suc (total - now) ≡ total = ground (arith, pos) in
    (
      now - 1,
      total - now,
      ap (λ n. map (state_at now) (positions 1 n)) (sym split)
          ∙ from now 1 (now - 1) (total - now) (ground (arith, pos)),
      split,
      elim (le_or_lt (unwrap_or_one current) total) [
        | inr high ↦ inr (inr high)
        | inl fits ↦ elim (le_or_lt (unwrap_or_one current) 0) [
          | inl none_asked ↦ inr (inl (omega (arith, none_asked)))
          | inr low ↦ inl (ground (arith, pos, low, fits))
        ]
      ],
    )
