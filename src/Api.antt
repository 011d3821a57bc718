-- ===== src/Api.antt =====
-- app/api: the guards of the HTTP interface.
pub mod RateLimit
pub mod DbRateLimit
pub mod Gate
pub mod Middleware
pub mod Quotas
pub mod Tasks
pub mod Registry
pub mod Security
mod Examples
