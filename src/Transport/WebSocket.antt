-- ===== src/Transport/WebSocket.antt =====
-- The WebSocket transport: sidp_transport_websocket.cpp.
pub mod State
pub mod Receive
pub mod Fragments
pub mod Staging
pub mod Bounds
pub mod Reassembly
pub mod Chunks
pub mod Messages
pub mod Client
pub mod Release
pub mod Start
mod Tests
