-- ===== src/Asr.antt =====
-- asr/src/lib.rs: recognition requests, transcripts and sessions. `V` is the type of the JSON
-- values (`serde_json::Value`) that a request carries through to a provider.
use speechmesh.Common.{ℕ, String, Bool, Option, List}
use speechmesh.Core.{AudioFormat, ProviderSelector, SessionId, StreamMode}

pub record RecognitionOptions (V : Type 0) : Type 0 where
  pub language : Option String
  pub hints : List String
  pub interim_results : Bool
  pub timestamps : Bool
  pub punctuation : Bool
  pub prefer_on_device : Bool
  pub provider_options : V

pub record StreamRequest (V : Type 0) : Type 0 where
  pub provider : ProviderSelector
  pub input_format : AudioFormat
  pub options : RecognitionOptions V

pub record TranscriptSegment : Type 0 where
  pub text : String
  pub is_final : Bool
  pub start_ms : Option ℕ
  pub end_ms : Option ℕ

pub record Transcript : Type 0 where
  pub text : String
  pub language : Option String
  pub segments : List TranscriptSegment

pub record AsrSession : Type 0 where
  pub id : SessionId
  pub provider_id : String
  pub accepted_input_format : AudioFormat
  pub input_mode : StreamMode
  pub output_mode : StreamMode
