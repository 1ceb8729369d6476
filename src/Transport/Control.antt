-- ===== src/Transport/Control.antt =====
-- transport/src/control.rs: the messages of the control endpoint.
use speechmesh.Common.{ℕ, String, Option, List}
use speechmesh.Core.{AudioFormat}
use speechmesh.Transport.Agent.{AgentSnapshot}

pub record ControlPlayAudioPayload : Type 0 where
  pub task_id : Option String
  pub device_id : Option String
  pub output_target : Option String
  pub agent_id : Option String
  pub format : Option AudioFormat
  pub audio_base64 : String
  pub chunk_size_bytes : Option ℕ

pub record ControlAgentStatusPayload : Type 0 where
  pub agent_id : Option String
  pub device_id : Option String

pub data ControlRequest : Type 0 where
  play_audio : ControlPlayAudioPayload → ControlRequest
  devices_list : ControlRequest
  agent_status : ControlAgentStatusPayload → ControlRequest

pub record ControlPlayAudioAcceptedPayload : Type 0 where
  pub task_id : String
  pub routed_agent_id : String
  pub chunk_count : ℕ
  pub total_bytes : ℕ

-- The payloads with one field are that field.
pub data ControlResponse : Type 0 where
  play_audio_accepted : ControlPlayAudioAcceptedPayload → ControlResponse
  devices_list : List AgentSnapshot → ControlResponse
  agent_status : Option AgentSnapshot → ControlResponse
  error : String → ControlResponse
  pong : ControlResponse
