-- ===== src/Tcp/Receiver.antt =====
-- The inbound thread's half of src/tcp_stack.cpp, `tcp_receiver`.
pub mod State
pub mod Replies
pub mod Ack
pub mod Data
pub mod Dispatch
pub mod Frame
pub mod Poll
