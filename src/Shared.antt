-- ===== src/Shared.antt =====
-- shared/: the contracts between the services and small utilities.
pub mod Schemas
pub mod Parsing
pub mod Auth
pub mod Settings
pub mod Clients
mod Examples
