-- ===== src/Observability.antt =====
-- app/observability: what the runtime records of its own work.
pub mod Spans
mod Examples
