-- ===== src/Task.antt =====
-- include/xyco/task: what waits for several futures, and blocking calls.
pub mod Join
pub mod Select
pub mod Blocking
