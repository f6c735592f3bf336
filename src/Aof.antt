-- ===== src/Aof.antt =====
-- src/aof.cpp: the append-only file. What the system calls answer is a parameter.
pub mod Load
pub mod Flush
pub mod Durable
pub mod Returns
pub mod Replay
pub mod Total
pub mod Tests
