-- ===== src/Lib.antt =====
-- rustcopy copies folders on Windows, by robocopy or by an engine of its own, and keeps backups as
-- generations. This library models the core of crates/rustcopy-core, with the generation backup of
-- crates/rustcopy-cli/src/main.rs and the batch queue of crates/rustcopy-ui.
--
-- The parts and how they interact:
-- * ExitCode (rustcopy-core/src/exit_code.rs): robocopy's bit mask. Errors (errors.rs) asks it
--   whether a failed copy is worth another attempt, and Engine (engine/mod.rs) whether an outcome
--   is a success; Engine has the retry loop, over an engine, a sink and a sleeper that are a
--   parameter.
-- * Generations (generations.rs): backup generations, their cycles, retention, the index, and what
--   changed since a listing. Manifest (the same file) is the manifest on disk: loading, saving,
--   appending one line, and streaming one generation out. Text has the texts and lines that it reads.
-- * GenerationRun (rustcopy-cli/src/main.rs, execute_generation_backup and prune_old_generations):
--   one run over a manifest and the generation folders. GenerationRestore (generation_restore.rs):
--   the chain of folders that rebuilds a generation, and which file comes from which folder.
--   GenerationRestore.Complete joins the two: what runs recorded, a restore finds. A purge removes
--   folders before it rewrites the manifest, so one that fails may leave recorded generations without
--   folders: GenerationRun.Live keeps them apart from the others, and the ids are called lost.
-- * DiskSpace (disk_space.rs), Safety (safety.rs) and DestGuard (dest_guard.rs) are the guards of a
--   run. Moves (moves.rs) deletes originals behind a verified copy, and asks Safety first: its
--   children Planning and Deleting are plan_move and execute_move.
-- * Checkpoint (checkpoint.rs, with parts of cli.rs and report.rs): resuming an interrupted run.
-- * Config (config.rs) has the settings of a job and their merging. JobEditor (job_editor.rs,
--   with validate_job_name of lib.rs) is the console's editor: its children Draft, Pinned and
--   Proposal have the form, the fields that are written back and the proposed file.
-- * Integrity (integrity.rs) compares a copy with its source and reports the differences.
-- * Schedule (schedule.rs): the quoted command line that a scheduled run starts with;
--   Schedule.Split is the reading of such a line that it is judged by. Schedule.Spec and
--   Schedule.Start are the specification and its first start, Schedule.Stripping takes a
--   schedule's flags away, Schedule.Tasks reads what schtasks lists, and Schedule.Requests and
--   Schedule.Elevated are what the console may ask for, over the drafts of JobEditor and the
--   levels of Safety.
-- * CopyPlan (runner.rs): where the folders of a copy go, and in CopyPlan.WithFiles its files.
-- * PathList is a list of paths kept as a text file. Suspended (suspended.rs) and KnownConfigs
--   (configs.txt of sessions.rs) keep theirs in one. ProcessTree (rustcopy-ui/src/suspend.rs)
--   finds what a pause stops.
-- * Progress (progress.rs): the counters of a transfer, which the retry loop resets. RunHistory
--   (history.rs): the bounded reader of past runs. Queue (rustcopy-ui/src/queue.rs): the
--   places in a batch.
-- Base has what all share: Boolean tests, equality as an instance, lists over native numbers,
-- options, results. Strings has the functions of native strings.
--
-- Correspondence: a struct is a record, an enum a data type, a method a function on its record;
-- constructors are spelled with small letters. A method that mutates returns the new state; the
-- disk of Moves and the folders of a backup are association lists. `Result` is Base's, with `?`
-- as bind. A path is the list of its components, or in settings and drafts its text, so that two
-- spellings of one path differ. Machine integers are natural numbers, and saturation and caps
-- are written out where the code has them; i32 exit codes are Base's ℤ. Where the code asks the
-- system, a library or a person (walkdir, serde_json, file system calls, confirmations), the
-- answer is a parameter.
--
-- A module's children hold its theorems, named for what they are about; Examples has every
-- theorem at a concrete input.
--
-- Bounds: the retry loop recurses on the attempts left, which the policy gives; ProcessTree.walk
-- recurses on fuel, one more than the processes in the table, which is enough because a process
-- is taken once; every other loop is structural on the list that it reads.
--
-- Not modelled: starting robocopy and reading its output, hashing, encryption, VSS, the scanner, the
-- command line's options, reading and writing TOML, the task XML and the calls of schtasks, reports,
-- notifications, the log of sessions, and the user interfaces; they are I/O, or libraries' work. A
-- write or removal that fails is modelled in a generation backup, a crash between two writes for the
-- manifest's append only. That a source file keeps its scanned length until it is copied is a
-- condition of the theorems on backups.
pub mod Base
pub mod ExitCode
pub mod Errors
pub mod Engine
pub mod Text
pub mod Manifest
pub mod Generations
pub mod GenerationRestore
pub mod GenerationRun
pub mod DiskSpace
pub mod Safety
pub mod Moves
pub mod Checkpoint
pub mod RunHistory
pub mod DestGuard
pub mod Queue
pub mod Examples
pub mod Progress
pub mod Schedule
pub mod Strings
pub mod Config
pub mod JobEditor
pub mod Integrity
pub mod PathList
pub mod Suspended
pub mod KnownConfigs
pub mod ProcessTree
pub mod CopyPlan
