-- ===== src/Rt.antt =====
-- actix-rt: the arbiters, each a thread that runs tasks, and the system that stops them.
pub mod Arbiter
pub mod System
mod Tests
