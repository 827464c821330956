-- ===== src/Conductor/Execution.antt =====
-- apps/conductor/services/execution.py: the review of a candidate and its single repair.
pub mod Save
pub mod Repair
pub mod Run
pub mod Stages
pub mod Traces
pub mod Walks
pub mod Frame
pub mod Bounds
pub mod Quiet
