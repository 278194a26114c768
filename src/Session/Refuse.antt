-- ===== src/Session/Refuse.antt =====
-- Requests that sidp_session.cpp answers without touching the target.
pub mod Defs
pub mod Frames
pub mod Gate
pub mod Lost
pub mod Passing
pub mod Checks
