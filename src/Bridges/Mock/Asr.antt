-- ===== src/Bridges/Mock/Asr.antt =====
-- MockAsrBridge of bridges/src/asr/mock.rs. `V` is the type of JSON values, with serde_json's
-- `get` and `as_str`; the new session's id is an argument.
use speechmesh.Common.{ℕ, ◌+◌, ◌⧺◌, String, Option, some, none, List, [], ◌∷◌, length, true}
use speechmesh.Common.Text.{show}
use speechmesh.Core.{
  StreamMode, streaming, buffered, SessionId, ProviderDescriptor, new_descriptor, with_capability,
  enabled_capability, asr, local_daemon,
}
use speechmesh.Asr.{StreamRequest, AsrSession}
use speechmesh.Bridges.AsrEvents.{
  BridgeAsrEvent, partial, final, ended, BridgeCommand, push_audio, commit, stop,
}
use speechmesh.Bridges.Audio.Modes.{
  asr_descriptor_with_io_modes, requested_asr_input_mode, requested_output_mode,
}
use speechmesh.Common.Channel.{send}
use speechmesh.Bridges.Mock.{unwrap_or}

pub record MockAsrBridge : Type 0 where
  pub provider_id : String
  pub display_name : Option String

unfoldable pub descriptors : MockAsrBridge → List ProviderDescriptor
unfolding asr_descriptor_with_io_modes
descriptors bridge =
    with_capability
      (asr_descriptor_with_io_modes
        (new_descriptor bridge.provider_id (unwrap_or bridge.display_name "Mock ASR Bridge") asr
          local_daemon)
        true)
      (enabled_capability "interim-results")
    ∷ []

module _ {V : Type 0} (get : V → String → Option V) (as_str : V → Option String) where
  -- The session of `start_stream`.
  unfoldable pub start_stream : MockAsrBridge → SessionId → StreamRequest V → AsrSession
  unfolding requested_asr_input_mode requested_output_mode
  start_stream bridge id request = record {
    id = id;
    provider_id = bridge.provider_id;
    accepted_input_format = request.input_format;
    input_mode = requested_asr_input_mode get as_str request.options.provider_options;
    output_mode =
        requested_output_mode get as_str request.options.provider_options
          request.options.interim_results;
  }

abbrev pub partial_of : ℕ → BridgeAsrEvent
partial_of buffered_bytes = partial ("mock partial bytes=" ⧺ show buffered_bytes)

abbrev pub final_of : ℕ → BridgeAsrEvent
final_of buffered_bytes = final (record {
  text = "mock transcript bytes=" ⧺ show buffered_bytes;
  language = some "en-US";
  segments = [];
})

-- The session's task: the events that are received, for the commands it is given.
unfoldable pub run_session : StreamMode → ℕ → ℕ → List BridgeCommand → List BridgeAsrEvent
unfolding send
run_session output_mode room buffered_bytes [] = []
run_session streaming room buffered_bytes (push_audio chunk ∷ commands) =
    send room (partial_of (buffered_bytes + length chunk))
      (λ left. run_session streaming left (buffered_bytes + length chunk) commands)
run_session buffered room buffered_bytes (push_audio chunk ∷ commands) =
    run_session buffered room (buffered_bytes + length chunk) commands
run_session output_mode room buffered_bytes (commit ∷ commands) =
    send room (final_of buffered_bytes) (λ left. send left (ended none) (λ _. []))
run_session output_mode room buffered_bytes (stop ∷ commands) =
    send room (ended (some "stopped")) (λ _. [])
