-- ===== src/Server.antt =====
-- speechmeshd/src/server.rs: what a client of the gateway is sent.
pub mod Recognition
pub mod Synthesis
pub mod Client
pub mod Control
pub mod Examples
