-- ===== src/Json/RoundTrip.antt =====
-- What the writer of json.cpp writes, its parser reads back.
pub mod Strings
pub mod Texts
pub mod Objects
pub mod Fields
pub mod Calls
