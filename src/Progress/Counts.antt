-- ===== src/Progress/Counts.antt =====
-- What the accounting shows after any calls.
use rustcopy.Base.{
  ℕ, zero, suc, ◌+◌, ◌%◌, ◌^◌, ◌≤◌, max, String, ◌≡◌, ◌∙◌, refl, ap, List, [], ◌∷◌, take, arith,
  string_eq,
}
use rustcopy.Progress.{
  Throughput, Call, new_throughput, wrapping_add, recent_limit, call, calls, current_bytes,
  add_bytes, add_file, observe_total_bytes, set_status, reset, set_current_file,
}

-- What the calls since the last reset say, from what was said before.
abbrev pub bytes_since : ℕ → List Call → ℕ
bytes_since n [] = n
bytes_since n (add_bytes bytes ∷ cs) = bytes_since (n + bytes) cs
bytes_since n (reset ∷ cs) = bytes_since 0 cs
bytes_since n (_ ∷ cs) = bytes_since n cs

abbrev pub observed_since : ℕ → List Call → ℕ
observed_since n [] = n
observed_since n (observe_total_bytes bytes ∷ cs) = observed_since (max n bytes) cs
observed_since n (reset ∷ cs) = observed_since 0 cs
observed_since n (_ ∷ cs) = observed_since n cs

abbrev pub files_since : ℕ → List Call → ℕ
files_since n [] = n
files_since n (add_file ∷ cs) = files_since (n + 1) cs
files_since n (reset ∷ cs) = files_since 0 cs
files_since n (_ ∷ cs) = files_since n cs

-- Newest first.
abbrev pub names_since : List String → List Call → List String
names_since names [] = names
names_since names (set_current_file name ∷ cs) = names_since (name ∷ names) cs
names_since names (reset ∷ cs) = names_since [] cs
names_since names (_ ∷ cs) = names_since names cs

take-take : {A : Type 0} (m n : ℕ) (xs : List A) → m ≤ n → take m (take n xs) ≡ take m xs
take-take zero n xs h = refl
take-take (suc m) zero xs h = absurd (omega (arith, h))
take-take (suc m) (suc n) [] h = refl
take-take (suc m) (suc n) (x ∷ xs) h = ap (λ l. x ∷ l) (take-take m n xs (omega (arith, h)))

record Says (p : Throughput) (bytes observed files : ℕ) (names : List String) : Type 0 where
  reported_is : p.reported_bytes ≡ bytes % 2 ^ 64
  observed_is : p.observed_bytes ≡ observed
  files_are : p.files ≡ files % 2 ^ 64
  recent_are : p.recent_files ≡ take recent_limit names

wrap : (a b n : ℕ) → a ≡ n % 2 ^ 64 → wrapping_add a b ≡ (n + b) % 2 ^ 64
wrap a b n h = omega (arith, h)

calls-Says :
    (p : Throughput) (cs : List Call) (bytes observed files : ℕ) (names : List String)
    → Says p bytes observed files names
    → Says
        (calls p cs)
        (bytes_since bytes cs)
        (observed_since observed cs)
        (files_since files cs)
        (names_since names cs)
unfolding calls call
calls-Says p [] bytes observed files names h = h
calls-Says p (add_bytes b ∷ cs) bytes observed files names h =
    calls-Says (call p (add_bytes b)) cs (bytes + b) observed files names (record {
      reported_is = wrap p.reported_bytes b bytes h.reported_is;
      observed_is = h.observed_is;
      files_are = h.files_are;
      recent_are = h.recent_are;
    })
calls-Says p (add_file ∷ cs) bytes observed files names h =
    calls-Says (call p add_file) cs bytes observed (files + 1) names (record {
      reported_is = h.reported_is;
      observed_is = h.observed_is;
      files_are = wrap p.files 1 files h.files_are;
      recent_are = h.recent_are;
    })
calls-Says p (observe_total_bytes b ∷ cs) bytes observed files names h =
    calls-Says (call p (observe_total_bytes b)) cs bytes (max observed b) files names (record {
      reported_is = h.reported_is;
      observed_is = ap (λ n. max n b) h.observed_is;
      files_are = h.files_are;
      recent_are = h.recent_are;
    })
calls-Says p (set_status m ∷ cs) bytes observed files names h =
    calls-Says p cs bytes observed files names h
calls-Says p (reset ∷ cs) bytes observed files names h =
    calls-Says (call p reset) cs 0 0 0 []
      (record { reported_is = refl; observed_is = refl; files_are = refl; recent_are = refl })
calls-Says p (set_current_file n ∷ cs) bytes observed files names h =
    calls-Says (call p (set_current_file n)) cs bytes observed files (n ∷ names) (record {
      reported_is = h.reported_is;
      observed_is = h.observed_is;
      files_are = h.files_are;
      recent_are =
          ap (λ l. n ∷ take 7 l) h.recent_are ∙ ap (λ l. n ∷ l) (take-take 7 8 names (omega arith));
    })

-- After any calls, the bytes shown are the larger of the sum reported since the last reset, modulo
-- 2^64, and of the largest total observed since then; the files are counted from there too, and
-- the list of recent files is the eight latest names since then, newest first.
pub calls_lem :
    (total : ℕ) (cs : List Call)
    → (current_bytes (calls (new_throughput total) cs)
        ≡ max (bytes_since 0 cs % 2 ^ 64) (observed_since 0 cs))
      × ((calls (new_throughput total) cs).files ≡ files_since 0 cs % 2 ^ 64)
      × ((calls (new_throughput total) cs).recent_files ≡ take 8 (names_since [] cs))
calls_lem total cs =
    let says =
      calls-Says (new_throughput total) cs 0 0 0 []
        (record { reported_is = refl; observed_is = refl; files_are = refl; recent_are = refl }) in
    (
      ap (λ n. max n (calls (new_throughput total) cs).observed_bytes) says.reported_is
          ∙ ap (λ n. max (bytes_since 0 cs % 2 ^ 64) n) says.observed_is,
      says.files_are,
      says.recent_are,
    )
