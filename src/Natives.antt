-- ===== src/Natives.antt =====
-- natives.cpp: the natives that the scripts call, and the callbacks that the events become.
pub mod Args
pub mod Setup
pub mod Stations
pub mod Playback
pub mod Status
pub mod Items
pub mod Listing
pub mod Table
pub mod Events
pub mod Reading
pub mod Readers
pub mod Sound
pub mod Writers
pub mod Lawful
pub mod Cells
pub mod Declared
pub mod Refused
