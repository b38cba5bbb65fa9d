-- ===== src/Manager.antt =====
-- src/MultiInstanceManager.cpp: load_json_config, over include/ovpn2ss/InstanceConfig.h, and the instances.
pub mod Json
pub mod Config
pub mod Valid
pub mod Instance
pub mod Events
pub mod Queue
pub mod Jobs
pub mod Running
pub mod Stopping
