-- ===== src/UdpRelay.antt =====
-- UdpRelaySession of src/UdpRelaySession.cpp.
pub mod Stack
pub mod State
pub mod Mappings
pub mod Sending
pub mod Events
pub mod Standing
pub mod Table
pub mod Accounting
pub mod Delivery
