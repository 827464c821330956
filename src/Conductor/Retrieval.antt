-- ===== src/Conductor/Retrieval.antt =====
-- apps/conductor/services/retrieval.py: the full-text table of the memories and its search.
pub mod Index
pub mod Refresh
pub mod Search
pub mod Query
pub mod Stages
pub mod Relevant
