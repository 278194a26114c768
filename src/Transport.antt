-- ===== src/Transport.antt =====
-- The transports: sidp_transport_queue.cpp and its two users, sidp_transport_cdc.cpp and
-- sidp_transport_websocket.cpp.
pub mod Sizes
pub mod Int
pub mod Port
pub mod State
pub mod Queue
pub mod Spec
pub mod History
pub mod Setup
pub mod Moves
pub mod Rings
pub mod Wait
pub mod Ticks
pub mod Timeouts
pub mod Views
pub mod Refines
pub mod Invariant
pub mod Counts
pub mod Created
pub mod Reached
pub mod Resources
pub mod Allocation
pub mod Links
pub mod SmallRing
mod Tests
pub mod Cdc
pub mod WebSocket
