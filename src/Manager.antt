-- ===== src/Manager.antt =====
-- manager.h and manager.cpp: the stations, the jobs for the workers, and the callbacks that wait for
-- the main thread.
pub mod State
pub mod Setup
pub mod Stations
pub mod Commands
pub mod Status
pub mod Worker
pub mod Streams
pub mod Registry
pub mod Answers
pub mod Labelled
pub mod Timing
pub mod Reconfigured
pub mod Requested
pub mod Unknown
pub mod Stopping
pub mod Stopped
mod Tests
