-- ===== src/Transport/Cdc.antt =====
-- The SLIP transport over USB CDC-ACM: sidp_transport_cdc.cpp.
pub mod State
pub mod Receive
pub mod Feed
pub mod Drain
pub mod Encode
pub mod Decode
pub mod Slip
pub mod Resync
pub mod Bounds
pub mod Send
pub mod Init
pub mod Sending
pub mod Sent
pub mod Delivery
mod Tests
