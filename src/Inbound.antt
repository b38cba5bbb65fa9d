-- ===== src/Inbound.antt =====
-- The listeners of src/ShadowsocksInbound.cpp.
pub mod Listeners
pub mod Events
pub mod Serving
pub mod Restart
