-- ===== src/Engine/Backoff.antt =====
-- The waits between attempts.
use rustcopy.Base.{le_or_lt, ◌⊎◌, inl, inr, ◌<◌, ℕ, zero, suc, ◌*◌, ◌^◌, ◌≤◌, min, ◌≡◌, arith}
use rustcopy.Engine.{RetryPolicy, backoff, duration_max}
use native.Mathlib.Nat.{pow-suc, mul-le-mul_left}

pow_mono : (a b : ℕ) → a ≤ b → 2 ^ a ≤ 2 ^ b
pow_mono zero zero h = omega arith
pow_mono zero (suc b) h = grind (arith, pow_mono zero b, pow-suc)
pow_mono (suc a) zero h = elim h [ ]
pow_mono (suc a) (suc b) h = grind (arith, pow_mono a b, pow-suc)

min_le : (i : ℕ) → i ≤ 16 → min i 16 ≡ i
min_le i h = omega arith

-- No wait passes the cap, a later wait is never shorter than an earlier one, and a wait is the base
-- doubled once per attempt, unless the attempt is past the sixteenth or that passes the cap.
pub backoff_lem :
    (p : RetryPolicy) (i j : ℕ)
    → p.cap ≤ duration_max
    → i ≤ j
    → (backoff p i ≤ p.cap)
      × (backoff p i ≤ backoff p j)
      × ((backoff p i ≡ p.base_wait * 2 ^ i) ⊎ (16 < i) ⊎ (p.cap < p.base_wait * 2 ^ i))
unfolding backoff
backoff_lem p i j fits le = (
  omega arith,
  omega (arith, mul-le-mul_left p.base_wait (pow_mono (min i 16) (min j 16) (omega (arith, le)))),
  elim (le_or_lt i 16) [
    | inr large ↦ inr (inl large)
    | inl small ↦ elim (le_or_lt (p.base_wait * 2 ^ i) p.cap) [
      | inr above ↦ inr (inr above)
      | inl below ↦ inl (rw (min_le i small) (omega (arith, below)))
    ]
  ],
)
