-- ===== src/Storage.antt =====
-- app/storage: what the runtime keeps in its database.
pub mod Journal
pub mod Tasks
pub mod Events
pub mod Spans
pub mod Database
pub mod Lease
pub mod Windows
pub mod Tenants
pub mod Metrics
mod Examples
