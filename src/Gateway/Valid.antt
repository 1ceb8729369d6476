-- ===== src/Gateway/Valid.antt =====
-- What holds of the gateway between two calls.
pub mod Sessions
pub mod Tasks
use speechmesh.Common.HashMap.Distinct.{IsDistinct}
use speechmesh.Device.Registry.Valid
use speechmesh.Gateway.State.{Gateway}

-- The registry is valid, and a session or a task has one entry.
pub record IsValid {V : Type 0} (g : Gateway V) : Type 0 where
  pub registry : Valid.IsValid g.device_registry
  pub sessions_distinct : IsDistinct g.sessions
  pub waiters_distinct : IsDistinct g.task_waiters
