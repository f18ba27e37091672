-- ===== src/Io.antt =====
-- include/xyco/io: buffered reading, complete writing, and the registries of epoll and io_uring.
pub mod BufferReader
pub mod WriteAll
pub mod Epoll
pub mod Events
pub mod Uring
