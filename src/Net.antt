-- ===== src/Net.antt =====
-- include/xyco/net, src/net: sockets, and TCP over epoll and over io_uring.
pub mod Socket
pub mod Epoll
pub mod Uring
