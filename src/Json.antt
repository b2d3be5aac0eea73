-- ===== src/Json.antt =====
-- json.h and json.cpp: the values and their accessors, the parser, and the writer of request
-- bodies; then what is proved of the parser and of the two together.
pub mod Value
pub mod Escape
pub mod Parser
pub mod Builder
pub mod RoundTrip
pub mod Total
pub mod Unicode
pub mod Depth
mod Tests
