-- ===== src/Transport/Client.antt =====
-- transport/src/lib.rs: what a client sends to a gateway. `V` is the type of JSON values, `F` that
-- of f32 numbers, and `T` that of the payload of `asr.transcribe`, which the gateway never reads.
use speechmesh.Common.{String, Option, List}
use speechmesh.Core.{RequestId, SessionId, CapabilityDomain, ProviderSelector}
use speechmesh.Asr
use speechmesh.Tts

pub record HelloRequest : Type 0 where
  pub protocol_version : String
  pub client_name : Option String

pub record VoiceListRequest : Type 0 where
  pub provider : ProviderSelector
  pub language : Option String

-- The payloads with one field are that field, and the empty one is left out.
pub data ClientMessage (V F T : Type 0) : Type 0 where
  hello : Option RequestId → HelloRequest → ClientMessage V F T
  discover : RequestId → List CapabilityDomain → ClientMessage V F T
  asr_transcribe : RequestId → T → ClientMessage V F T
  asr_start : RequestId → Asr.StreamRequest V → ClientMessage V F T
  asr_commit : SessionId → ClientMessage V F T
  tts_voices : RequestId → VoiceListRequest → ClientMessage V F T
  tts_start : RequestId → Tts.StreamRequest V F → ClientMessage V F T
  tts_input_append : SessionId → String → ClientMessage V F T
  tts_commit : SessionId → ClientMessage V F T
  session_stop : SessionId → ClientMessage V F T
  session_cancel : SessionId → ClientMessage V F T
  ping : Option RequestId → ClientMessage V F T
