-- ===== src/Amx.antt =====
-- amxutil.h, amxutil.cpp and sdk/amx.h: the scripts that are loaded, their strings, and the calls of
-- their publics.
pub mod Exports
pub mod Strings
pub mod Scripts
pub mod Callback
pub mod Stacks
pub mod Balance
pub mod Carried
pub mod Order
pub mod Tracked
