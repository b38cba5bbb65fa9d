-- ===== src/Dns.antt =====
-- The DNS messages of src/LwipRuntime.cpp.
pub mod Packet
pub mod Query
pub mod Response
pub mod InBounds
pub mod Guards
pub mod Names
pub mod Exchange
