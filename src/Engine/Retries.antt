-- ===== src/Engine/Retries.antt =====
-- The retry loop against an engine that plays a script. The world counts the attempts and logs
-- what the loop did to the engine, the sink and the sleeper.
use rustcopy.Base.{
  ℕ, zero, suc, ◌+◌, ◌≤◌, ◌<◌, ◌-◌, String, ◌≡◌, ◌∙◌, refl, Bool, true, false, not, ◌&&◌, Option,
  some, List, ◌⊎◌, inl, inr, Bool-cases, ℕ_discrete, [], ◌∷◌, ◌++◌, Result, ok, err, arith, ◌==◌,
  nat_eq,
}
use native.Mathlib.Numerals.{add-one}
use native.Mathlib.Nat.{add-zero}
use rustcopy.Errors.{IngestError, copy_failed, is_transient}
use rustcopy.Engine.{
  CopyOutcome, or_minus_one, describe_status, is_success, should_retry, RetryPolicy, backoff,
  total_attempts, Services, finished, again, after_copy, attempt_copy, retry_loop, run_with_retries,
}

pub data Event : Type 0 where
  copied : Event
  reset_sink : Event
  status_set : String → Event
  slept : ℕ → Event

-- The attempts made so far and what happened, newest first.
pub record World : Type 0 where
  pub made : ℕ
  pub log : List Event

abbrev pub scripted : (ℕ → Result IngestError CopyOutcome) → Services World
scripted script = record {
  copy = λ w. (script w.made, record { made = suc w.made; log = copied ∷ w.log });
  reset = λ w. record w { log = reset_sink ∷ w.log };
  set_status = λ text w. record w { log = status_set text ∷ w.log };
  sleep = λ d w. record w { log = slept d ∷ w.log };
}

abbrev pub start : World
start = record { made = 0; log = [] }

-- The attempt's answer asks for another one, if one is left.
abbrev pub is_transient_answer : Result IngestError CopyOutcome → Bool
is_transient_answer (ok outcome) = not (is_success outcome) && should_retry outcome
is_transient_answer (err error) = is_transient error

-- What the loop says and waits for after attempt `n`.
abbrev pub waits : RetryPolicy → ℕ → Result IngestError CopyOutcome → List Event
waits p n (ok outcome) = slept (backoff p n) ∷ status_set "retrying after incomplete copy" ∷ []
waits p n (err error) = slept (backoff p n) ∷ []

-- The whole log, newest first, of a run that ends with attempt `n`.
abbrev pub expected : RetryPolicy → (ℕ → Result IngestError CopyOutcome) → ℕ → List Event
expected p script zero = copied ∷ []
expected p script (suc n) = copied ∷ reset_sink ∷ (waits p n (script n) ++ expected p script n)

-- The time of an attempt is its engine's; an engine that fails reports none.
abbrev pub time_of : Result IngestError CopyOutcome → ℕ
time_of (ok outcome) = outcome.elapsed
time_of (err error) = 0

-- The time that the attempts before `n` took together.
abbrev pub spent : (ℕ → Result IngestError CopyOutcome) → ℕ → ℕ
spent script zero = 0
spent script (suc n) = spent script n + time_of (script n)

-- What a run returns whose last answer is the first one given, at attempt `n`, and whose earlier
-- attempts took the time: the engine's outcome, with the whole time and the attempts used.
abbrev pub Answers :
    ℕ → ℕ → Result IngestError CopyOutcome → Result IngestError CopyOutcome → Type 0
Answers n time (ok outcome) (ok returned) =
    (is_success outcome ≡ true)
    × (returned ≡ record {
      engine = outcome.engine;
      bytes_copied = outcome.bytes_copied;
      files_copied = outcome.files_copied;
      elapsed = time + outcome.elapsed;
      exit_code = outcome.exit_code;
      retry_attempts_used = n;
      dry_run = outcome.dry_run;
      summary = outcome.summary;
    })
Answers n time (ok outcome) (err error) =
    (is_success outcome ≡ false)
    × (error ≡ copy_failed (or_minus_one outcome.exit_code) (describe_status outcome) (n + 1))
Answers n time (err error) r = r ≡ err error

-- The run stopped at attempt `n`: each one before it asked for another, and it did not, or was the
-- last that the policy allows. The log is the engine's, the sink's and the sleeper's.
pub record StoppedAt (p : RetryPolicy) (script : ℕ → Result IngestError CopyOutcome)
    (out : Option (Result IngestError CopyOutcome × World)) (n : ℕ) : Type 0 where
  pub in_budget : n + 1 ≤ total_attempts p
  pub earlier : (j : ℕ) → j < n → is_transient_answer (script j) ≡ true
  pub final : (n + 1 ≡ total_attempts p) ⊎ (is_transient_answer (script n) ≡ false)
  pub result : Result IngestError CopyOutcome
  pub returned : out ≡ some (result, record { made = suc n; log = expected p script n })
  pub answers : Answers n (spent script n) (script n) result

attempts_pos : (p : RetryPolicy) → (k : ℕ) × (total_attempts p ≡ suc k)
unfolding total_attempts
attempts_pos p = (total_attempts p - 1, omega arith)

module _ (p : RetryPolicy) (script : ℕ → Result IngestError CopyOutcome) where
  -- The log when attempt `n` begins.
  abbrev before : ℕ → List Event
  before zero = []
  before (suc n) = waits p n (script n) ++ expected p script n

  finish :
      (n e : ℕ) (last : Bool) (answer : Result IngestError CopyOutcome) (w : World)
      → (last ≡ true) ⊎ (is_transient_answer answer ≡ false)
      → (r : Result IngestError CopyOutcome) × (after_copy (scripted script) p n e last answer w
          ≡ finished r w)
        × Answers n e answer r
  unfolding is_success should_retry
  finish n e last (ok outcome) w h = elim (Bool-cases (is_success outcome)) [
    | inl good ↦ (
      ok (record outcome { elapsed = e + outcome.elapsed; retry_attempts_used = n }),
      ground arith,
      (good, refl),
    )
    | inr bad ↦ (
      err (copy_failed (or_minus_one outcome.exit_code) (describe_status outcome) (n + 1)),
      ground arith,
      (bad, refl),
    )
  ]
  finish n e last (err error) w h = (err error, ground arith, refl)

  go_on :
      (n e : ℕ) (answer : Result IngestError CopyOutcome) (w : World)
      → is_transient_answer answer ≡ true
      → after_copy (scripted script) p n e false answer w
        ≡ again (e + time_of answer) (record w { log = waits p n answer ++ w.log })
  unfolding is_success should_retry
  go_on n e (ok outcome) w h = ground arith
  go_on n e (err error) w h = rw add-zero (ground arith)

  abbrev world_before : ℕ → World
  world_before n = record { made = n; log = before n }

  abbrev world_after : ℕ → World
  world_after n = record { made = suc n; log = expected p script n }

  attempt_copy_lem :
      (n e : ℕ)
      → attempt_copy (scripted script) p n e (world_before n)
        ≡ after_copy (scripted script) p n e (n + 1 == total_attempts p) (script n) (world_after n)
  unfolding attempt_copy
  attempt_copy_lem zero e = refl
  attempt_copy_lem (suc n) e = ground arith

  abbrev Below : ℕ → Type 0
  Below n = (j : ℕ) → j < n → is_transient_answer (script j) ≡ true

  Below-suc : (n : ℕ) → Below n → is_transient_answer (script n) ≡ true → Below (suc n)
  Below-suc n b h j lt = elim (ℕ_discrete j n) [ yes e ↦ rw e h | no ne ↦ b j (omega arith) ]

  abbrev Stops : Option (Result IngestError CopyOutcome × World) → Type 0
  Stops out = (m : ℕ) × StoppedAt p script out m

  stop_here :
      (rest n : ℕ)
      → n + 1 ≤ total_attempts p
      → Below n
      → (n + 1 ≡ total_attempts p) ⊎ (is_transient_answer (script n) ≡ false)
      → Stops (retry_loop (scripted script) p (suc rest) n (spent script n) (world_before n))
  unfolding retry_loop
  stop_here rest n fits below h =
      let done : ((n + 1 == total_attempts p) ≡ true) ⊎ (is_transient_answer (script n) ≡ false) =
        elim h [ inl last ↦ inl (ground arith) | inr f ↦ inr f ] in
      let (r, path, good) =
        finish n (spent script n) (n + 1 == total_attempts p) (script n) (world_after n) done in
      (
        n,
        record {
          in_budget = fits;
          earlier = below;
          final = h;
          result = r;
          returned = rw (attempt_copy_lem n (spent script n) ∙ path, retry_loop);
          answers = good;
        },
      )

  loop-again :
      (rest n e : ℕ) (w w' : World) (e' : ℕ)
      → attempt_copy (scripted script) p n e w ≡ again e' w'
      → retry_loop (scripted script) p (suc rest) n e w
        ≡ retry_loop (scripted script) p rest (suc n) e' w'
  unfolding retry_loop
  loop-again rest n e w w' e' path = rw (path, retry_loop) (rw add-one refl)

  loop_lem :
      (rest n : ℕ)
      → n + suc rest ≡ total_attempts p
      → Below n
      → Stops (retry_loop (scripted script) p (suc rest) n (spent script n) (world_before n))
  loop_lem zero n sum below = stop_here zero n (omega arith) below (inl (omega arith))
  loop_lem (suc rest) n sum below = elim (Bool-cases (is_transient_answer (script n))) [
    | inr f ↦ stop_here (suc rest) n (omega arith) below (inr f)
    | inl t ↦
        let path = go_on n (spent script n) (script n) (world_after n) t in
        let test : (n + 1 == total_attempts p) ≡ false = ground arith in
        let turn =
          loop-again (suc rest) n (spent script n) (world_before n) (world_before (suc n))
            (spent script (suc n)) (attempt_copy_lem n (spent script n) ∙ rw test path) in
        rw turn (loop_lem rest (suc n) (omega arith) (Below-suc n below t))
  ]

-- Every run of the loop returns, whatever the engine answers: there is an attempt, within the
-- policy's number of attempts, before which each answer asked for another attempt, and which is the
-- last allowed or did not ask for one. The run returns that answer (the
-- engine's outcome with the time of all the attempts that gave one and the attempts used, or a
-- failed copy with the number of attempts, or the engine's error), and has slept once between two attempts, for the
-- backoff of the earlier one, and reset the sink before each attempt but the first.
pub run_with_retries_lem :
    (p : RetryPolicy) (script : ℕ → Result IngestError CopyOutcome)
    → (n : ℕ) × StoppedAt p script (run_with_retries (scripted script) p start) n
unfolding run_with_retries
run_with_retries_lem p script =
    let (k, e) = attempts_pos p in
    rw e (loop_lem p script k 0 (omega arith) (λ j lt. absurd (omega arith)))
