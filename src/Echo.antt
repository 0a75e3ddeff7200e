-- ===== src/Echo.antt =====
-- examples/tcp_echo_server.h: the ring between the two threads, and the two threads.
pub mod Ring
pub mod Inbound
pub mod Outbound
pub mod Streams
pub mod Server
pub mod Progress
pub mod Rounds
pub mod Setup
mod Examples
