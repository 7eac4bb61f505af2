-- ===== src/Jobs.antt =====
-- internal/jobs: a queue in a table, and the runner that works it off.
pub mod Enqueue
pub mod Runner
pub mod Leases
pub mod Exclusion
