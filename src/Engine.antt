-- ===== src/Engine.antt =====
-- The copy engine's interface and the outer retry loop: crates/rustcopy-core/src/engine/mod.rs.
-- An engine, a progress sink and a sleeper are trait objects: they are one parameter, actions on an
-- unknown world. A `Duration` is its number of nanoseconds.
pub mod Backoff
pub mod Retries
use rustcopy.Base.{
  ℕ, zero, suc, ◌+◌, ◌-◌, ◌*◌, ◌^◌, min, String, Bool, true, false, not, ◌&&◌, ◌||◌, Option, none,
  some, Result, ok, err, ℤ, negsuc, ltb, ◌==◌, nat_eq, if◌then◌else◌,
}
use rustcopy.ExitCode
use rustcopy.ExitCode.{RobocopyStatus, Description, status_of}
use rustcopy.Errors.{IngestError, copy_failed, is_transient}

pub record CopySummaryDetail : Type 0 where
  pub files_skipped : ℕ
  pub files_mismatch : ℕ
  pub files_failed : ℕ
  pub files_extra : ℕ
  pub bytes_skipped : ℕ
  pub bytes_mismatch : ℕ
  pub bytes_failed : ℕ
  pub bytes_extra : ℕ

pub record CopyOutcome : Type 0 where
  pub engine : String
  pub bytes_copied : ℕ
  pub files_copied : ℕ
  pub elapsed : ℕ
  pub exit_code : Option ℤ
  pub retry_attempts_used : ℕ
  pub dry_run : Bool
  pub summary : Option CopySummaryDetail

abbrev pub new_outcome : String → CopyOutcome
new_outcome name = record {
  engine = name;
  bytes_copied = 0;
  files_copied = 0;
  elapsed = 0;
  exit_code = none;
  retry_attempts_used = 0;
  dry_run = false;
  summary = none;
}

abbrev pub status : CopyOutcome → Option RobocopyStatus
status o = elim o.exit_code [ none ↦ none | some code ↦ some (status_of code) ]

-- An engine without an exit code succeeds by returning.
unfoldable pub is_success : CopyOutcome → Bool
is_success o = elim (status o) [ none ↦ true | some s ↦ ExitCode.is_success s ]

unfoldable pub should_retry : CopyOutcome → Bool
should_retry o = elim (status o) [ none ↦ false | some s ↦ ExitCode.should_retry s ]

-- `none` is the text "no exit code reported".
abbrev pub describe_status : CopyOutcome → Option Description
describe_status o = elim (status o) [ none ↦ none | some s ↦ some (ExitCode.describe s) ]

pub record RetryPolicy : Type 0 where
  pub max_retries : ℕ
  pub base_wait : ℕ
  pub cap : ℕ

abbrev pub second : ℕ
second = 1_000_000_000

abbrev pub u32_max : ℕ
u32_max = 4294967295

-- `Duration::MAX`, in nanoseconds
abbrev pub duration_max : ℕ
duration_max = 18446744073709551616 * 1_000_000_000 - 1

abbrev pub new_policy : ℕ → ℕ → RetryPolicy
new_policy max_retries base_wait_seconds = record {
  max_retries = max_retries;
  base_wait = base_wait_seconds * second;
  cap = 300 * second;
}

pub backoff : RetryPolicy → ℕ → ℕ
backoff p attempt = min (min (p.base_wait * 2 ^ min attempt 16) duration_max) p.cap

unfoldable pub total_attempts : RetryPolicy → ℕ
total_attempts p = min (p.max_retries + 1) u32_max

-- What the loop calls: the engine, the sink and the sleeper, as actions on a world `W`.
pub record Services (W : Type 0) : Type 0 where
  pub copy : W → Result IngestError CopyOutcome × W
  pub reset : W → W
  pub set_status : String → W → W
  pub sleep : ℕ → W → W

abbrev pub or_minus_one : Option ℤ → ℤ
or_minus_one none = negsuc 0
or_minus_one (some code) = code

-- What one attempt leads to: a result, or another attempt after the wait, with the time so far.
pub data Next (W : Type 0) : Type 0 where
  finished : Result IngestError CopyOutcome → W → Next W
  again : ℕ → W → Next W

module _ {W : Type 0} (env : Services W) (policy : RetryPolicy) where
  -- the arm `Ok(outcome)`; `outcome` has its elapsed time and attempts set already
  abbrev pub after_outcome : ℕ → Bool → CopyOutcome → W → Next W
  after_outcome attempt is_last outcome w =
      if is_success outcome
      then finished (ok outcome) w
      else if not (should_retry outcome) || is_last
      then finished
          (err
            (copy_failed (or_minus_one outcome.exit_code) (describe_status outcome) (attempt + 1)))
          w
      else again outcome.elapsed
          (env.sleep (backoff policy attempt) (env.set_status "retrying after incomplete copy" w))

  -- the arm `Err(error)`
  abbrev pub after_error : ℕ → ℕ → Bool → IngestError → W → Next W
  after_error attempt accumulated is_last error w =
      if is_last || not (is_transient error)
      then finished (err error) w
      else again accumulated (env.sleep (backoff policy attempt) w)

  abbrev pub after_copy : ℕ → ℕ → Bool → Result IngestError CopyOutcome → W → Next W
  after_copy attempt accumulated is_last (ok outcome) w =
      after_outcome attempt is_last
        (record outcome { elapsed = accumulated + outcome.elapsed; retry_attempts_used = attempt })
        w
  after_copy attempt accumulated is_last (err error) w =
      after_error attempt accumulated is_last error w

  -- one round of the loop
  pub attempt_copy : ℕ → ℕ → W → Next W
  attempt_copy attempt accumulated w =
      let w' = if ltb 0 attempt then env.reset w else w in
      let (answer, w'') = env.copy w' in
      after_copy attempt accumulated (attempt + 1 == total_attempts policy) answer w''

  -- The rounds left, the number of this one, and the time so far. `none` is the `unreachable!`
  -- behind the loop.
  pub retry_loop : ℕ → ℕ → ℕ → W → Option (Result IngestError CopyOutcome × W)
  retry_loop zero attempt accumulated w = none
  retry_loop (suc rest) attempt accumulated w = elim (attempt_copy attempt accumulated w) [
    | finished r w' ↦ some (r, w')
    | again elapsed w' ↦ retry_loop rest (attempt + 1) elapsed w'
  ]

  pub run_with_retries : W → Option (Result IngestError CopyOutcome × W)
  run_with_retries w = retry_loop (total_attempts policy) 0 0 w
