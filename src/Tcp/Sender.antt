-- ===== src/Tcp/Sender.antt =====
-- The outbound thread's half of src/tcp_stack.cpp, `tcp_sender`.
pub mod State
pub mod Send
pub mod Close
