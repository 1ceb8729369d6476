-- ===== src/Bridges/Mock/Tts.antt =====
-- MockTtsBridge of bridges/src/tts/mock.rs. `V` is the type of JSON values, with serde_json's `get`
-- and `as_str`, and `F` that of f32 numbers; `into_bytes` is String's, and the new session's id is
-- an argument.
use speechmesh.Common.{ℕ, ◌⧺◌, String, Option, some, none, List, [], ◌∷◌, true, false}
use speechmesh.Core.{
  AudioFormat, wav, SessionId, ProviderDescriptor, new_descriptor, with_capability,
  enabled_capability, tts, local_daemon,
}
use speechmesh.Tts.{StreamRequest, TtsSession, VoiceDescriptor}
use speechmesh.Bridges.Error.{Result, ok, err}
use speechmesh.Bridges.TtsEvents.{
  BridgeTtsEvent, audio, ended, BridgeTtsCommand, append_input, commit, stop,
}
use speechmesh.Bridges.Audio.Modes.{
  requested_tts_input_mode, requested_output_mode, ensure_tts_modes_supported,
}
use speechmesh.Common.Channel.{send}
use speechmesh.Bridges.Mock.{unwrap_or}

pub record MockTtsBridge : Type 0 where
  pub provider_id : String
  pub display_name : Option String

unfoldable pub descriptors : MockTtsBridge → List ProviderDescriptor
descriptors bridge =
    let plain =
      new_descriptor bridge.provider_id (unwrap_or bridge.display_name "Mock TTS Bridge") tts
        local_daemon in
    let voiced = with_capability plain (enabled_capability "voice-list") in
    let input = with_capability voiced (enabled_capability "buffered-input") in
    let text = with_capability input (enabled_capability "buffered-text-input") in
    let output = with_capability text (enabled_capability "buffered-output") in
    with_capability output (enabled_capability "rate-control") ∷ []

unfoldable pub list_voices : Result (List VoiceDescriptor)
list_voices = ok (
    record {
      id = "mock.default";
      language = "und";
      display_name = "Mock Voice";
      gender = none;
      capabilities = "rate-control" ∷ [];
    }
    ∷ [])

-- `or_else` with the mock's own format.
abbrev format_or_wav : Option AudioFormat → Option AudioFormat
format_or_wav (some format) = some format
format_or_wav none = some (record { encoding = wav; sample_rate_hz = 16_000; channels = 1 })

module _ {V F : Type 0} (get : V → String → Option V) (as_str : V → Option String) where
  -- The session of `start_stream`, or its refusal.
  unfoldable pub start_stream : MockTtsBridge → SessionId → StreamRequest V F → Result TtsSession
  unfolding requested_tts_input_mode requested_output_mode ensure_tts_modes_supported
  start_stream bridge id request =
      let input_mode = requested_tts_input_mode get as_str request.options.provider_options in
      let output_mode =
        requested_output_mode get as_str request.options.provider_options request.options.stream in
      elim (ensure_tts_modes_supported input_mode output_mode false false "Mock TTS") [
        | err error ↦ err error
        | ok _ ↦ ok (record {
          id = id;
          provider_id = bridge.provider_id;
          accepted_output_format = format_or_wav request.output_format;
          input_mode = input_mode;
          output_mode = output_mode;
        })
      ]

module _ (into_bytes : String → List ℕ) where
  -- The session's task: the events that are received, for the commands it is given.
  unfoldable pub run_session :
      Option AudioFormat → ℕ → String → List BridgeTtsCommand → List BridgeTtsEvent
  unfolding send
  run_session output_format room buffer [] = []
  run_session output_format room buffer (append_input delta ∷ commands) =
      run_session output_format room (buffer ⧺ delta) commands
  run_session output_format room buffer (commit ∷ commands) =
      send room
        (audio (record {
          bytes = into_bytes ("MOCK_TTS:" ⧺ buffer);
          sequence = 1;
          is_final = true;
          format = output_format;
        }))
        (λ left. send left (ended none) (λ _. []))
  run_session output_format room buffer (stop ∷ commands) =
      send room (ended (some "stopped")) (λ _. [])
