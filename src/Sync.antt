-- ===== src/Sync.antt =====
-- include/xyco/sync: the channels.
pub mod Oneshot
pub mod Mpsc
