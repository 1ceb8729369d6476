-- ===== src/Core.antt =====
-- core/src/lib.rs: the types that every other part shares.
use speechmesh.Common.{ℕ, String, Bool, true, false, Option, List, [], ◌∷◌, ◌++◌}

-- A `SessionId` wraps a UUID, which is written and sent as its hyphenated text.
abbrev pub SessionId : Type 0
SessionId = String

abbrev pub RequestId : Type 0
RequestId = String

pub data CapabilityDomain : Type 0 where
  asr tts transport : CapabilityDomain

-- `==` of the derived `PartialEq`
abbrev pub same_domain : CapabilityDomain → CapabilityDomain → Bool
same_domain asr asr = true
same_domain tts tts = true
same_domain transport transport = true
same_domain _ _ = false

pub record Capability : Type 0 where
  pub key : String
  pub enabled : Bool

-- `Capability::enabled`
abbrev pub enabled_capability : String → Capability
enabled_capability key = record { key = key; enabled = true }

pub data RuntimeMode : Type 0 where
  in_process local_daemon remote_gateway : RuntimeMode

pub data ProviderSelectionMode : Type 0 where
  auto provider : ProviderSelectionMode

pub data StreamMode : Type 0 where
  buffered streaming : StreamMode

pub record ProviderSelector : Type 0 where
  pub mode : ProviderSelectionMode
  pub provider_id : Option String
  pub required_capabilities : List String
  pub preferred_capabilities : List String

pub data AudioEncoding : Type 0 where
  pcm_s16le pcm_f32le opus mp3 aac flac wav : AudioEncoding

-- The name that the derived `Debug` prints.
abbrev pub debug_encoding : AudioEncoding → String
debug_encoding pcm_s16le = "PcmS16Le"
debug_encoding pcm_f32le = "PcmF32Le"
debug_encoding opus = "Opus"
debug_encoding mp3 = "Mp3"
debug_encoding aac = "Aac"
debug_encoding flac = "Flac"
debug_encoding wav = "Wav"

-- `sample_rate_hz` is a u32 and `channels` a u16.
pub record AudioFormat : Type 0 where
  pub encoding : AudioEncoding
  pub sample_rate_hz : ℕ
  pub channels : ℕ

pub record ProviderDescriptor : Type 0 where
  pub id : String
  pub name : String
  pub domain : CapabilityDomain
  pub runtime : RuntimeMode
  pub capabilities : List Capability

abbrev pub new_descriptor : String → String → CapabilityDomain → RuntimeMode → ProviderDescriptor
new_descriptor id name domain runtime = record {
  id = id;
  name = name;
  domain = domain;
  runtime = runtime;
  capabilities = [];
}

abbrev pub with_capability : ProviderDescriptor → Capability → ProviderDescriptor
with_capability d c = record d { capabilities = d.capabilities ++ c ∷ [] }

-- `details` is always `Value::Null` here, and is left out.
pub record ErrorInfo : Type 0 where
  pub code : String
  pub message : String
  pub retryable : Bool

abbrev pub new_error_info : String → String → ErrorInfo
new_error_info code message = record { code = code; message = message; retryable = false }
