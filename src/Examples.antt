-- ===== src/Examples.antt =====
-- The theorems at concrete inputs.
mod Backups
mod Manifests
mod Guards
mod CommandLines
mod Jobs
mod Copies
mod Schedules
mod Tasks
mod Copying
mod Processes
mod PathLists
