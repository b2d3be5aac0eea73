-- ===== src/Manager/Registry.antt =====
-- The stations of `Manager` through all its operations: src/manager.cpp.
pub mod Objects
pub mod WellFormed
pub mod Keys
pub mod Requests
pub mod Workers
pub mod Running
pub mod Lifecycle
pub mod Teardown
pub mod System
