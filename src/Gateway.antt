-- ===== src/Gateway.antt =====
-- speechmeshd/src/agent.rs: the gateway's side of the agents, with the sessions and tasks that run
-- on them.
pub mod State
pub mod Log
pub mod Valid
pub mod Sessions
pub mod Tasks
pub mod Connection
pub mod Examples
pub mod Calls
pub mod Run
