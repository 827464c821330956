-- ===== src/Subagent.antt =====
-- glm-as-subagent: the delegated agent and what bounds it.
pub mod Budget
pub mod Spent
pub mod Mutations
pub mod Recovered
pub mod Accepted
pub mod Response
pub mod Retry
pub mod Attempts
mod Examples
