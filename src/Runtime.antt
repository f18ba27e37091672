-- ===== src/Runtime.antt =====
-- The runtime: futures and what runs them.
pub mod Future
pub mod Core
