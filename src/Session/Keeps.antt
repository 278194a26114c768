-- ===== src/Session/Keeps.antt =====
-- The invariant of the session, and what every method keeps.
pub mod Defs
pub mod Frames
pub mod Tables
pub mod Snapshot
pub mod Stops
pub mod Lifecycle
pub mod Attach
pub mod Memory
pub mod Registers
pub mod StepOver
pub mod Runs
pub mod Control
pub mod Requests
