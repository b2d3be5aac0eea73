-- ===== src/Connect.antt =====
-- connect_client.h and connect_client.cpp.
pub mod Errors
pub mod Envelope
pub mod Framing
pub mod Client
pub mod Stream
mod Tests
