-- ===== src/Transport.antt =====
-- The wire protocol: messages between gateway, agents, clients and controllers.
pub mod Agent
pub mod Server
pub mod Client
pub mod Control
