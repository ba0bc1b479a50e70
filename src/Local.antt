-- ===== src/Local.antt =====
-- The crates for tasks of one thread: local-waker, local-channel, and the counter of actix-utils.
pub mod Waker
pub mod Guards
pub mod Channel
pub mod Futures
mod Tests
