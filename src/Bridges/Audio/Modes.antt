-- ===== src/Bridges/Audio/Modes.antt =====
-- The modes of a session and the names of formats: the helpers of bridges/src/asr/mod.rs and
-- bridges/src/tts/mod.rs. `V` is the type of JSON values, with serde_json's `get` and `as_str`.
use speechmesh.Common.{
  ℕ, ◌*◌, ◌==◌, ◌⧺◌, ◌&&◌, not, String, Bool, true, false, Option, none, some, and_then, map_option,
  if◌then◌else◌, ltb,
}
use speechmesh.Common.Text.{trim, to_ascii_lowercase}
use speechmesh.Core.{
  debug_encoding, StreamMode, buffered, streaming, AudioEncoding, AudioFormat, pcm_s16le, pcm_f32le,
  mp3, flac, wav, ProviderDescriptor, with_capability, enabled_capability,
}
use speechmesh.Bridges.Error.{unavailable, Result, ok, err}

-- The `match` on the text.
abbrev pub mode_of_text : Option String → StreamMode → StreamMode
mode_of_text none default = default
mode_of_text (some mode) default =
    if mode == "streaming" then streaming else if mode == "buffered" then buffered else default

module _ {V : Type 0} (get : V → String → Option V) (as_str : V → Option String) where
  unfoldable pub parse_stream_mode : Option V → StreamMode → StreamMode
  parse_stream_mode value default =
      mode_of_text
        (map_option (λ (text : String). to_ascii_lowercase (trim text)) (and_then value as_str))
        default

  unfoldable pub requested_asr_input_mode : V → StreamMode
  unfolding parse_stream_mode
  requested_asr_input_mode provider_options =
      parse_stream_mode (get provider_options "input_mode") streaming

  -- `otherwise` is `interim_results` of a recognition, and `stream` of a synthesis.
  unfoldable pub requested_output_mode : V → Bool → StreamMode
  unfolding parse_stream_mode
  requested_output_mode provider_options otherwise = elim (get provider_options "output_mode") [
    | some explicit ↦ parse_stream_mode (some explicit) buffered
    | none ↦ if otherwise then streaming else buffered
  ]

  unfoldable pub requested_tts_input_mode : V → StreamMode
  unfolding parse_stream_mode
  requested_tts_input_mode provider_options =
      parse_stream_mode (get provider_options "input_mode") buffered

unfoldable pub asr_descriptor_with_io_modes : ProviderDescriptor → Bool → ProviderDescriptor
asr_descriptor_with_io_modes descriptor supports_streaming_output =
    let described =
      with_capability
        (with_capability (with_capability descriptor (enabled_capability "streaming-input"))
          (enabled_capability "buffered-input"))
        (enabled_capability "buffered-output") in
    if supports_streaming_output
    then with_capability described (enabled_capability "streaming-output")
    else described

-- `matches!(mode, StreamMode::Streaming)`
abbrev pub is_streaming : StreamMode → Bool
is_streaming streaming = true
is_streaming buffered = false

unfoldable pub ensure_tts_modes_supported :
    StreamMode → StreamMode → Bool → Bool → String → Result (Unit {0})
ensure_tts_modes_supported input_mode output_mode streams_input streams_output provider_name =
    if is_streaming input_mode && not streams_input
    then err (unavailable (provider_name ⧺ " does not support streaming TTS input"))
    else if is_streaming output_mode && not streams_output
    then err (unavailable (provider_name ⧺ " does not support streaming TTS output"))
    else ok tt

abbrev unsupported : AudioEncoding → Result String
unsupported other =
    err (
      unavailable
        ("unsupported TTS output encoding for upstream provider: " ⧺ debug_encoding other))

unfoldable pub normalize_output_format_name : Option AudioEncoding → String → Result String
normalize_output_format_name (some wav) fallback = ok (to_ascii_lowercase (trim "wav"))
normalize_output_format_name (some mp3) fallback = ok (to_ascii_lowercase (trim "mp3"))
normalize_output_format_name (some flac) fallback = ok (to_ascii_lowercase (trim "flac"))
normalize_output_format_name none fallback = ok (to_ascii_lowercase (trim fallback))
normalize_output_format_name (some other) fallback = unsupported other

abbrev pub encoding_named : String → Result AudioEncoding
encoding_named name =
    if name == "wav"
    then ok wav
    else if name == "mp3"
    then ok mp3
    else if name == "flac"
    then ok flac
    else err (unavailable ("unsupported audio format requested from upstream provider: " ⧺ name))

unfoldable pub audio_encoding_from_name : String → Result AudioEncoding
audio_encoding_from_name name = encoding_named (to_ascii_lowercase (trim name))

-- `usize` of 64 bits holds every product here.
unfoldable pub streaming_partial_trigger_bytes : AudioFormat → ℕ → ℕ
streaming_partial_trigger_bytes format configured_min_bytes =
    if ltb 0 configured_min_bytes then configured_min_bytes else elim format.encoding [
      | pcm_s16le ↦ format.sample_rate_hz * format.channels * 2
      | pcm_f32le ↦ format.sample_rate_hz * format.channels * 4
      | _ ↦ 32 * 1024
    ]
