-- ===== src/Utils.antt =====
-- include/xyco/utils and src/utils: errors and results.
pub mod Error
