-- ===== src/Transport/Server.antt =====
-- transport/src/lib.rs: what a gateway sends to a client.
use speechmesh.Common.{ℕ, String, Bool, Option, List}
use speechmesh.Core.{
  RequestId, SessionId, CapabilityDomain, ProviderDescriptor, AudioFormat, StreamMode, ErrorInfo,
}
use speechmesh.Tts.{SynthesisInputKind, VoiceDescriptor}

pub record HelloResponse : Type 0 where
  pub protocol_version : String
  pub server_name : String
  pub one_session_per_connection : Bool

pub record SessionStartedPayload : Type 0 where
  pub domain : CapabilityDomain
  pub provider_id : String
  pub accepted_input_format : Option AudioFormat
  pub accepted_output_format : Option AudioFormat
  pub input_mode : Option StreamMode
  pub output_mode : Option StreamMode

pub record AsrWordPayload : Type 0 where
  pub text : String
  pub start_ms : Option ℕ
  pub end_ms : Option ℕ
  pub is_final : Bool

pub record AsrResultPayload : Type 0 where
  pub segment_id : ℕ
  pub revision : ℕ
  pub text : String
  pub delta : Option String
  pub is_final : Bool
  pub speech_final : Bool
  pub begin_time_ms : Option ℕ
  pub end_time_ms : Option ℕ
  pub words : List AsrWordPayload

pub record TtsAudioDeltaPayload : Type 0 where
  pub chunk_id : ℕ
  pub audio_base64 : String
  pub is_final : Bool
  pub format : Option AudioFormat

pub record TtsAudioDonePayload : Type 0 where
  pub input_kind : SynthesisInputKind
  pub total_chunks : ℕ
  pub total_bytes : ℕ

-- The payloads with one field are that field, and the empty one is left out.
pub data ServerMessage : Type 0 where
  hello_ok : Option RequestId → HelloResponse → ServerMessage
  discover_result : RequestId → List ProviderDescriptor → ServerMessage
  session_started : Option RequestId → SessionId → SessionStartedPayload → ServerMessage
  asr_result : SessionId → ℕ → AsrResultPayload → ServerMessage
  tts_voices_result : RequestId → List VoiceDescriptor → ServerMessage
  tts_audio_delta : SessionId → ℕ → TtsAudioDeltaPayload → ServerMessage
  tts_audio_done : SessionId → ℕ → TtsAudioDonePayload → ServerMessage
  session_ended : SessionId → Option String → ServerMessage
  error : Option RequestId → Option SessionId → ErrorInfo → ServerMessage
  pong : Option RequestId → ServerMessage
