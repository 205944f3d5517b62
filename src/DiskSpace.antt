-- ===== src/DiskSpace.antt =====
-- The preflight of the free space: crates/rustcopy-core/src/disk_space.rs. What the system answers
-- about the volume is a parameter.
pub mod Margin
use rustcopy.Base.{
  ℕ, ◌+◌, ◌-◌, ◌*◌, ◌/◌, ◌^◌, min, Bool, true, false, Option, none, some, Result, ok, err, leb,
  if◌then◌else◌,
}
use rustcopy.Errors.{IngestError, insufficient_disk_space}

abbrev pub u64_max : ℕ
u64_max = 2 ^ 64 - 1

abbrev pub saturating_mul : ℕ → ℕ → ℕ
saturating_mul a b = min (a * b) u64_max

abbrev pub saturating_add : ℕ → ℕ → ℕ
saturating_add a b = min (a + b) u64_max

unfoldable pub required_bytes : ℕ → ℕ → ℕ
required_bytes needed_bytes percent =
    saturating_add needed_bytes (saturating_mul needed_bytes percent / 100)

unfoldable pub covers : ℕ → ℕ → ℕ → Bool
covers available needed_bytes percent = leb (required_bytes needed_bytes percent) available

-- `existing` is the nearest existing ancestor of the destination, `free_bytes` the system's answer.
unfoldable pub ensure_enough_free_space {ℓ} :
    {P : Type ℓ} → (P → Option ℕ) → Option P → ℕ → ℕ → Result {0, 0} IngestError Unit
ensure_enough_free_space free_bytes none needed_bytes percent = ok tt
ensure_enough_free_space free_bytes (some existing) needed_bytes percent =
    elim (free_bytes existing) [
      | none ↦ ok tt
      | some available ↦
          if covers available needed_bytes percent
          then ok tt
          else err (insufficient_disk_space (required_bytes needed_bytes percent) available)
    ]
