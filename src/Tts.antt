-- ===== src/Tts.antt =====
-- tts/src/lib.rs: what a synthesis session takes and yields. Audio is a list of bytes.
use speechmesh.Common.{ℕ, String, Bool, Option, List}
use speechmesh.Core.{SessionId, AudioFormat, StreamMode, ProviderSelector}

pub data SynthesisInputKind : Type 0 where
  text ssml : SynthesisInputKind

pub record VoiceDescriptor : Type 0 where
  pub id : String
  pub language : String
  pub display_name : String
  pub gender : Option String
  pub capabilities : List String

pub record AudioChunk : Type 0 where
  pub bytes : List ℕ
  pub sequence : ℕ
  pub is_final : Bool
  pub format : Option AudioFormat

pub record TtsSession : Type 0 where
  pub id : SessionId
  pub provider_id : String
  pub accepted_output_format : Option AudioFormat
  pub input_mode : StreamMode
  pub output_mode : StreamMode

-- `V` is the type of JSON values and `F` that of f32 numbers.
pub record SynthesisOptions (V F : Type 0) : Type 0 where
  pub language : Option String
  pub voice : Option String
  pub stream : Bool
  pub rate : Option F
  pub pitch : Option F
  pub volume : Option F
  pub provider_options : V

pub record StreamRequest (V F : Type 0) : Type 0 where
  pub provider : ProviderSelector
  pub input_kind : SynthesisInputKind
  pub output_format : Option AudioFormat
  pub options : SynthesisOptions V F
