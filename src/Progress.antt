-- ===== src/Progress.antt =====
-- The accounting of a transfer: crates/rustcopy-core/src/progress.rs, `ThroughputProgress` without
-- its terminal bar. The atomic counters wrap at 64 bits; the calls of a sink are a sequence.
pub mod Counts
use rustcopy.Base.{
  ℕ, suc, ◌+◌, ◌%◌, ◌^◌, max, String, Bool, true, false, Option, none, some, List, [], ◌∷◌, take,
  ◌==◌, string_eq, if◌then◌else◌,
}

abbrev pub recent_limit : ℕ
recent_limit = 8

pub record Throughput : Type 0 where
  pub reported_bytes : ℕ
  pub observed_bytes : ℕ
  pub files : ℕ
  pub total_bytes : ℕ
  pub current_name : String
  pub recent_files : List String

abbrev pub new_throughput : ℕ → Throughput
new_throughput total = record {
  reported_bytes = 0;
  observed_bytes = 0;
  files = 0;
  total_bytes = total;
  current_name = "";
  recent_files = [];
}

-- `fetch_add`
abbrev pub wrapping_add : ℕ → ℕ → ℕ
wrapping_add a b = (a + b) % 2 ^ 64

-- The calls of `ProgressSink`.
pub data Call : Type 0 where
  add_bytes : ℕ → Call
  add_file : Call
  observe_total_bytes : ℕ → Call
  set_status : String → Call
  reset : Call
  set_current_file : String → Call

unfoldable pub call : Throughput → Call → Throughput
call p (add_bytes bytes) = record p { reported_bytes = wrapping_add p.reported_bytes bytes }
call p add_file = record p { files = wrapping_add p.files 1 }
call p (observe_total_bytes bytes) = record p { observed_bytes = max p.observed_bytes bytes }
call p (set_status message) = p
call p reset = record p {
  reported_bytes = 0;
  observed_bytes = 0;
  files = 0;
  current_name = "";
  recent_files = [];
}
call p (set_current_file name) = record p {
  current_name = name;
  recent_files = take recent_limit (name ∷ p.recent_files);
}

unfoldable pub calls : Throughput → List Call → Throughput
calls p [] = p
calls p (c ∷ cs) = calls (call p c) cs

abbrev pub current_bytes : Throughput → ℕ
current_bytes p = max p.reported_bytes p.observed_bytes

unfoldable pub current_file : Throughput → Option String
current_file p = if p.current_name == "" then none else some p.current_name
