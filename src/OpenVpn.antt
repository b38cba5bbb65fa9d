-- ===== src/OpenVpn.antt =====
-- The connect loop of src/OpenVpnClient.cpp, and src/OpenVpnTunBuilder.cpp.
pub mod Client
pub mod Reconnect
pub mod TunBuilder
pub mod Collected
pub mod Tunnel
pub mod Started
pub mod Forwarding
pub mod Events
pub mod Traced
pub mod Callbacks
pub mod Ordered
pub mod Quiet
pub mod Steady
pub mod Scan
pub mod Lines
pub mod LineMatch
pub mod Accepted
pub mod Scanned
