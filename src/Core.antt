-- ===== src/Core.antt =====
-- app/core: the policies that the nodes and the client of the model share.
pub mod Budget
pub mod Errors
pub mod Retry
pub mod Llm
pub mod Compressor
mod Examples
