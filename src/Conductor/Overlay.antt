-- ===== src/Conductor/Overlay.antt =====
-- Guidance for one model alias or for a pair of models, kept per repository.
pub mod Rows
pub mod Guidance
pub mod Service
pub mod Resolved
pub mod Kept
