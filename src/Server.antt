-- ===== src/Server.antt =====
-- actix-server: the accept thread, its workers, and what they share.
pub mod Availability
pub mod Handle
pub mod Accept
pub mod Listeners
pub mod Waking
pub mod Joins
pub mod Commands
pub mod Running
pub mod Worker
pub mod Signals
pub mod Streams
pub mod Sockets
pub mod Builder
pub mod Startup
mod Tests
