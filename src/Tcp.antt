-- ===== src/Tcp.antt =====
-- include/tcp_stack.h, src/tcp_connection.h and src/tcp_stack.cpp: TCP termination.
pub mod Samples
mod Sums
mod Examples
pub mod Connection
pub mod FlowTable
pub mod Options
pub mod Segment
pub mod Stack
pub mod Receiver
pub mod Sender
