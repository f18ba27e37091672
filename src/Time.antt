-- ===== src/Time.antt =====
-- include/xyco/time and src/time: timers, their registry and sleep.
pub mod Wheel
pub mod Registry
pub mod Timeout
