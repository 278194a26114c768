-- ===== src/Session.antt =====
-- sidp_session.cpp, a module for each group of its methods.
pub mod State
pub mod Sound
pub mod Frame
pub mod Registers
pub mod Shadow
pub mod Table
pub mod Access
pub mod Cause
pub mod Stops
pub mod Lifecycle
pub mod Attach
pub mod Memory
pub mod RegisterOps
pub mod Plan
pub mod StepOver
pub mod Run
pub mod Control
pub mod Dispatch
pub mod Keeps
pub mod Start
pub mod Refuse
pub mod Safety
pub mod Restore
pub mod Unpatch
pub mod Admit
pub mod Map
pub mod Generation
pub mod Transparent
pub mod Readback
mod Board
mod MemoryBoard
mod Tests
