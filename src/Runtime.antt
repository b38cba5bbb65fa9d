-- ===== src/Runtime.antt =====
-- LwipRuntime of src/LwipRuntime.cpp, but for its DNS messages.
pub mod Net
pub mod State
pub mod Config
pub mod Packets
pub mod Resolver
pub mod Handlers
pub mod Events
pub mod Emitting
