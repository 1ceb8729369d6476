-- ===== src/Device.antt =====
-- The device crate: devices and their endpoints, the registry of agents, and the routing over it.
pub mod Model
pub mod Registry
pub mod Router
pub mod Examples
