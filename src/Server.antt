-- ===== src/Server.antt =====
-- meek-server/meek-server.go: sessions, and the HTTP handler over them.
pub mod Command
pub mod Session
pub mod Handler
pub mod Transact
pub mod Status
pub mod Answers
pub mod Posts
pub mod Isolation
pub mod Stream
pub mod Apart
pub mod Waits
pub mod Clients
pub mod Lifetime
pub mod Scrub
pub mod Steps
pub mod Expiry
pub mod Conservation
pub mod Tests
pub mod Startup
pub mod Abstract
pub mod Sums
pub mod Order
pub mod Main
