-- ===== src/Fs.antt =====
-- include/xyco/fs: files, and how they are opened.
pub mod Options
pub mod File
pub mod Uring
