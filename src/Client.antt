-- ===== src/Client.antt =====
-- meek-client: one SOCKS connection becomes a sequence of HTTP requests.
pub mod Command
pub mod SessionId
pub mod Url
pub mod Transport
pub mod Poll
pub mod Retries
pub mod Intervals
pub mod Tests
pub mod Helper
pub mod Config
pub mod Utls
pub mod ProxyHttp
pub mod Dial
pub mod Startup
pub mod Socks
pub mod Ending
pub mod Main
