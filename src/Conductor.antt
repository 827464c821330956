-- ===== src/Conductor.antt =====
-- apps/conductor: the services and the routes.
pub mod Db
pub mod World
pub mod Package
pub mod Memory
pub mod Draft
pub mod Overlay
pub mod Retrieval
pub mod Decision
pub mod Candidates
pub mod Invariants
pub mod Jobs
pub mod Governance
pub mod Reliability
pub mod Escalation
pub mod Outside
pub mod Execution
pub mod ControlPlane
pub mod Routes
pub mod Feasibility
pub mod Arbiter
pub mod Frontier
mod Examples
