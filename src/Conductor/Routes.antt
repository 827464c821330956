-- ===== src/Conductor/Routes.antt =====
-- apps/conductor/main.py: the routes that change the state of a job.
pub mod Execute
pub mod Replay
pub mod Idempotent
pub mod Attempts
pub mod Stuck
pub mod Package
pub mod Cancelled
pub mod Reads
