-- ===== src/Tls.antt =====
-- actix-tls: the connectors (actix-tls/src/connect).
pub mod Host
pub mod Info
pub mod Resolver
pub mod Tcp
pub mod Connector
pub mod Handshakes
pub mod Accept
pub mod Uri
mod Tests
