-- ===== src/Transport/Agent.antt =====
-- transport/src/agent.rs: the messages between an agent and the gateway. `V` is the type of the JSON
-- values in a recognition request; an empty payload is left out.
use speechmesh.Common.{ℕ, String, Bool, Option, List}
use speechmesh.Core.{AudioFormat, CapabilityDomain, SessionId}
use speechmesh.Asr.{StreamRequest, Transcript}

pub data AgentKind : Type 0 where
  asr_provider device : AgentKind

pub record AgentDeviceIdentity : Type 0 where
  pub device_id : String
  pub hostname : Option String
  pub platform : Option String

pub record AgentUpdateStatus : Type 0 where
  pub state : Option String
  pub current_version : Option String
  pub target_version : Option String
  pub checked_at_unix_secs : Option ℕ
  pub applied : Option Bool
  pub restart_performed : Option Bool
  pub error : Option String

pub record AgentHelloPayload : Type 0 where
  pub agent_id : String
  pub agent_name : String
  pub provider_id : Option String
  pub capabilities : List String
  pub capability_domains : List CapabilityDomain
  pub agent_kind : AgentKind
  pub device : Option AgentDeviceIdentity
  pub client_version : Option String
  pub update_status : Option AgentUpdateStatus
  pub shared_secret : Option String

pub record AgentSnapshot : Type 0 where
  pub agent_id : String
  pub agent_name : String
  pub provider_id : Option String
  pub capabilities : List String
  pub capability_domains : List CapabilityDomain
  pub agent_kind : AgentKind
  pub device : Option AgentDeviceIdentity
  pub client_version : Option String
  pub update_status : Option AgentUpdateStatus

pub data AgentTaskState : Type 0 where
  started finished failed : AgentTaskState

pub record AgentTaskStatusPayload : Type 0 where
  pub state : AgentTaskState
  pub message : Option String

-- The payloads with one field are that field.
pub data AgentToGatewayMessage : Type 0 where
  hello : AgentHelloPayload → AgentToGatewayMessage
  session_started : SessionId → String → AgentToGatewayMessage
  asr_partial : SessionId → String → AgentToGatewayMessage
  asr_final : SessionId → Transcript → AgentToGatewayMessage
  session_ended : SessionId → Option String → AgentToGatewayMessage
  error : Option SessionId → String → AgentToGatewayMessage
  task_status : String → AgentTaskStatusPayload → AgentToGatewayMessage
  pong : AgentToGatewayMessage

pub data GatewayToAgentMessage (V : Type 0) : Type 0 where
  hello_ok : String → GatewayToAgentMessage V
  session_start : SessionId → StreamRequest V → GatewayToAgentMessage V
  session_audio : SessionId → String → GatewayToAgentMessage V
  session_commit : SessionId → GatewayToAgentMessage V
  session_stop : SessionId → GatewayToAgentMessage V
  task_play_audio_start : String → Option AudioFormat → GatewayToAgentMessage V
  task_play_audio_chunk : String → String → GatewayToAgentMessage V
  task_play_audio_finish : String → GatewayToAgentMessage V
  ping : GatewayToAgentMessage V
