-- ===== src/Tools.antt =====
-- app/tools: the registry of tools.
pub mod Registry
