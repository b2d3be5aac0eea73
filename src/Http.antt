-- ===== src/Http.antt =====
-- http.h and http.cpp: URLs, the byte pipe, and a keep-alive HTTP/1.1 connection.
pub mod Url
pub mod Wire
pub mod Sockets
pub mod Descriptors
pub mod Sending
pub mod Reader
pub mod Headers
pub mod Connection
pub mod Lines
pub mod Bodies
pub mod FullBody
pub mod Requests
mod Tests
mod PlainTests
pub mod Valid
