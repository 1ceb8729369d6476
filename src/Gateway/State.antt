-- ===== src/Gateway/State.antt =====
-- The state of `AgentRegistry` in speechmeshd/src/agent.rs, and what it sends.
--
-- A channel is a number, its sending half included. `is_open` says which receiving halves still
-- exist, and `log` holds what was delivered, the newest first. A send on a channel whose receiver
-- is gone fails and delivers nothing; one on a full channel waits until it is delivered.
use speechmesh.Common.{String, Bool, Option, List, ◌∷◌, map_option, if◌then◌else◌, ◌⧺◌}
use speechmesh.Common.HashMap.{HashMap}
use speechmesh.Core.{AudioFormat, SessionId}
use speechmesh.Transport.Agent.{AgentTaskStatusPayload, GatewayToAgentMessage}
use speechmesh.Transport.Agent
use speechmesh.Device.Registry
use speechmesh.Device.Registry.{RegistryInner, Sender}
use speechmesh.Bridges.Error.{Result}
use speechmesh.Bridges.AsrEvents.{BridgeAsrEvent}

pub record PlayAudioRouteRequest : Type 0 where
  pub task_id : String
  pub device_id : Option String
  pub output_target : Option String
  pub agent_id : Option String
  pub format : Option AudioFormat

unfoldable pub to_device_agent_kind : Agent.AgentKind → Registry.AgentKind
to_device_agent_kind Agent.AgentKind.asr_provider = Registry.AgentKind.asr_provider
to_device_agent_kind Agent.AgentKind.device = Registry.AgentKind.device

unfoldable pub from_device_agent_kind : Registry.AgentKind → Agent.AgentKind
from_device_agent_kind Registry.AgentKind.asr_provider = Agent.AgentKind.asr_provider
from_device_agent_kind Registry.AgentKind.device = Agent.AgentKind.device

unfoldable pub to_device_identity : Agent.AgentDeviceIdentity → Registry.AgentDeviceIdentity
to_device_identity identity = record {
  device_id = identity.device_id;
  hostname = identity.hostname;
  platform = identity.platform;
}

unfoldable pub from_device_identity : Registry.AgentDeviceIdentity → Agent.AgentDeviceIdentity
from_device_identity identity = record {
  device_id = identity.device_id;
  hostname = identity.hostname;
  platform = identity.platform;
}

unfoldable pub to_transport_snapshot : Registry.AgentSnapshot → Agent.AgentSnapshot
unfolding from_device_agent_kind from_device_identity
to_transport_snapshot s = record {
  agent_id = s.agent_id;
  agent_name = s.agent_name;
  provider_id = s.provider_id;
  capabilities = s.capabilities;
  capability_domains = s.capability_domains;
  agent_kind = from_device_agent_kind s.agent_kind;
  client_version = s.client_version;
  update_status = s.update_status;
  device = map_option from_device_identity s.device;
}

pub record SessionRoute : Type 0 where
  pub agent_id : String
  pub event_tx : Sender
  pub started_tx : Option Sender

abbrev pub TaskWaitResult : Type 0
TaskWaitResult = Result AgentTaskStatusPayload

-- What was put on a channel.
pub data Delivery (V : Type 0) : Type 0 where
  command : Sender → GatewayToAgentMessage V → Delivery V
  event : Sender → BridgeAsrEvent → Delivery V
  started : Sender → Result (Unit {0}) → Delivery V
  task_result : Sender → TaskWaitResult → Delivery V

pub record Gateway (V : Type 0) : Type 0 where
  pub device_registry : RegistryInner
  pub expected_shared_secret : Option String
  pub sessions : HashMap SessionRoute
  pub task_waiters : HashMap Sender
  pub is_open : Sender → Bool
  pub log : List (Delivery V)

module _ {V : Type 0} where
  -- `tx.send(…)`, with its error dropped.
  abbrev pub send : Sender → Delivery V → Gateway V → Gateway V
  send tx d g = if g.is_open tx then record g { log = d ∷ g.log } else g

  abbrev pub with_registry : Gateway V → RegistryInner → Gateway V
  with_registry g inner = record g { device_registry = inner }

abbrev pub debug_session : SessionId → String
debug_session id = "SessionId(" ⧺ id ⧺ ")"
