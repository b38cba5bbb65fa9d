-- ===== src/TcpRelay.antt =====
-- src/TcpRelaySession.cpp and include/ovpn2ss/TcpRelaySession.h: one Shadowsocks TCP connection and
-- the lwIP connection to its target.
pub mod State
pub mod Closing
pub mod Upstream
pub mod Reading
pub mod Downstream
pub mod Teardown
pub mod Order
pub mod Window
pub mod Backpressure
pub mod Segments
pub mod Hazards
pub mod Events
pub mod Keeps
pub mod Opening
pub mod Sound
pub mod Delivery
pub mod Received
pub mod Written
pub mod Runs
pub mod Draining
pub mod Connects
pub mod Reopening
