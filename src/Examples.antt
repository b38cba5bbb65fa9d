-- ===== src/Examples.antt =====
-- Concrete libraries and sessions, on which the code runs and the theorems apply.
pub mod Toy
pub mod ToyAsio
pub mod Sessions
pub mod Addresses
pub mod Relays
pub mod Queries
pub mod Datagrams
pub mod Listeners
pub mod Scans
pub mod Instances
pub mod Resolutions
pub mod Configs
pub mod Reconnects
pub mod Tunnels
pub mod Streams
