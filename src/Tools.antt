-- ===== src/Tools.antt =====
-- The tools' error handling (di-core/src/tools).
pub mod Response
pub mod Routing
pub mod Edit
