-- ===== src/Worker.antt =====
-- apps/worker: the service that touches the repositories.
pub mod Handlers
pub mod Serve
pub mod Contained
mod Examples
