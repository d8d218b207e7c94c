-- ===== src/Go.antt =====
-- What the program uses of the Go language and its standard library.
pub mod Flag
pub mod Errors
pub mod Http
pub mod Text
pub mod HostPort
pub mod Path
pub mod Base64
