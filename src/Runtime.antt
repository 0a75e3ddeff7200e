-- ===== src/Runtime.antt =====
-- include/runtime.h and src/runtime.cpp: the EAL's arguments, and the life of the runtime.
pub mod Args
pub mod Life
mod Examples
