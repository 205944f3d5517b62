-- ===== src/DiskSpace/Margin.antt =====
-- What the preflight lets through, and what it stops.
use rustcopy.Base.{
  le_or_lt, ◌*◌, ◌/◌, ◌<◌, ℕ, ◌+◌, ◌≤◌, min, ◌≡◌, refl, Option, some, ok, err, Bool-cases, inl, inr,
  arith, ◌⊎◌,
}
use rustcopy.Errors.{insufficient_disk_space}
use rustcopy.DiskSpace.{u64_max, saturating_mul, required_bytes, covers, ensure_enough_free_space}

-- The number that 64 bits hold of a number: the number itself, or the largest.
abbrev pub Saturates : ℕ → ℕ → Type 0
Saturates exact held = ((exact ≤ u64_max) × (held ≡ exact)) ⊎ ((u64_max < exact) × (held ≡ u64_max))

-- The bytes and their margin, a hundredth of a product, where the product and the sum saturate.
abbrev pub IsRequired : ℕ → ℕ → ℕ → Type 0
IsRequired needed percent required =
    (product : ℕ) × Saturates (needed * percent) product
    × Saturates (needed + product / 100) required

saturates : (n : ℕ) → Saturates n (min n u64_max)
saturates n = elim (le_or_lt n u64_max) [
  | inl small ↦ inl (small, omega arith)
  | inr large ↦ inr (large, omega arith)
]

required_bytes-IsRequired :
    (needed percent : ℕ) → IsRequired needed percent (required_bytes needed percent)
unfolding required_bytes
required_bytes-IsRequired needed percent = (
  saturating_mul needed percent,
  saturates (needed * percent),
  saturates (needed + saturating_mul needed percent / 100),
)

-- For a volume whose free space is known, what the preflight asks for is the bytes and a margin of
-- so many hundredths of them, in 64-bit arithmetic that stops at the largest number. It passes, and
-- then the volume has that much free; or it has less, and the preflight stops the run, naming what
-- it asks for and what is free.
pub ensure_enough_free_space_lem {ℓ} :
    {P : Type ℓ} (free_bytes : P → Option ℕ) (existing : P) (available needed percent : ℕ)
    → free_bytes existing ≡ some available
    → (required : ℕ) × IsRequired needed percent required
      × (((ensure_enough_free_space free_bytes (some existing) needed percent ≡ ok tt)
            × (required ≤ available))
          ⊎ ((ensure_enough_free_space free_bytes (some existing) needed percent
                ≡ err (insufficient_disk_space required available))
              × (available < required)))
unfolding ensure_enough_free_space covers
ensure_enough_free_space_lem free_bytes existing available needed percent known = (
  required_bytes needed percent,
  required_bytes-IsRequired needed percent,
  elim (Bool-cases (covers available needed percent)) [
    | inr over ↦ inr (rw (known, over, ensure_enough_free_space) refl, ground arith)
    | inl fits ↦ inl (rw (known, fits, ensure_enough_free_space) refl, ground arith)
  ],
)
