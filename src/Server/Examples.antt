-- ===== src/Server/Examples.antt =====
-- A client's connection with a running session, and the events of two sessions.
use speechmesh.Common.{ℕ, String, true, false, ◌≡◌, refl, none, some, List, [], ◌∷◌, ◌++◌}
use speechmesh.Common.Fallible
use speechmesh.Common.Slices.{take}
use speechmesh.Core.{AudioFormat, AudioEncoding, streaming, auto}
use speechmesh.Transport.Server.{tts_audio_done}
use speechmesh.Tts.{text}
use speechmesh.Bridges.Error.{ok, err, unavailable}
use speechmesh.Bridges.AsrEvents.{BridgeAsrEvent, partial, final, ended}
use speechmesh.Bridges.AsrEvents
use speechmesh.Bridges.TtsEvents.{BridgeTtsEvent, audio}
use speechmesh.Bridges.TtsEvents
use speechmesh.Transport.Client.{ClientMessage, session_stop, asr_start}
use speechmesh.Server.Recognition.{compute_delta, forward_asr_events, new_asr_forwarder}
use speechmesh.Server.Recognition.Deltas.{
  Leads, Follows, compute_delta-Leads, forward_asr_events-Follows,
}
use speechmesh.Server.Synthesis.{forward_tts_events, new_tts_forwarder}
use speechmesh.Server.Synthesis.Totals.{relayed, forward_tts_events-closing}
use speechmesh.Server.Client.{
  ActiveSession, BridgeAsrSessionHandle, Bridges, Connection, asr_command,
}
use speechmesh.Server.Client.Messages.{handle_client_message, handle_client_websocket, Frame}
use speechmesh.Server.Client.Moves.{Moves}
use speechmesh.Server.Client.Sessions.{named, handle_client_message-Moves}

abbrev microphone : AudioFormat
microphone = record { encoding = AudioEncoding.pcm_s16le; sample_rate_hz = 16000; channels = 1 }

abbrev listening : Connection
listening = record {
  server_name = "den";
  active_session = some (
      ActiveSession.asr "s1" (record {
        session = record {
          id = "s1";
          provider_id = "apple.asr";
          accepted_input_format = microphone;
          input_mode = streaming;
          output_mode = streaming;
        };
        command_tx = 7;
        event_rx = none;
      }));
  accepts = λ tx. true;
  out_open = true;
  sent = [];
  commands = [];
  forwarding = ("s1", 8) ∷ [];
}

abbrev no_bridges : Bridges (Unit {0}) (Unit {0})
no_bridges = record {
  asr_descriptors = [];
  start_stream = λ request. err (unavailable "no bridge");
  tts_bridge = none;
}

abbrev stop_it : ClientMessage (Unit {0}) (Unit {0}) (Unit {0})
stop_it = session_stop "s1"

abbrev spoken : List BridgeAsrEvent
spoken =
    partial "turn"
    ∷ AsrEvents.error "slow"
    ∷ partial "turn on"
    ∷ final (record { text = "Turn on"; language = none; segments = [] })
    ∷ ended none
    ∷ []

abbrev sound : List BridgeTtsEvent
sound =
    audio (record { bytes = 1 ∷ 2 ∷ []; sequence = 0; is_final = true; format = none })
    ∷ TtsEvents.error "late"
    ∷ []

abbrev base64 : List ℕ → String
base64 bytes = "AQI="

handle_client_message-Moves_example :
    Moves (named stop_it) listening (handle_client_message no_bridges stop_it listening).1
handle_client_message-Moves_example = handle_client_message-Moves no_bridges stop_it listening

compute_delta-Leads_example : Leads "turn" "turn on" (compute_delta "turn" "turn on")
compute_delta-Leads_example = compute_delta-Leads "turn" "turn on"

forward_asr_events-Follows_example :
    Follows "s1" 4 0 0 "" spoken (forward_asr_events "s1" 4 spoken new_asr_forwarder)
forward_asr_events-Follows_example = forward_asr_events-Follows "s1" 4 spoken

forward_tts_events-closing_example :
    forward_tts_events base64 "s1" text 3 (sound ++ TtsEvents.ended none ∷ []) new_tts_forwarder
    ≡ relayed base64 "s1" text 0 sound
      ++ tts_audio_done "s1" 2 (record { input_kind = text; total_chunks = 1; total_bytes = 2 })
        ∷ []
unfolding take
forward_tts_events-closing_example =
    forward_tts_events-closing base64 "s1" text 3 sound [] none refl

abbrev microphone_session : BridgeAsrSessionHandle
microphone_session = record {
  session = record {
    id = "s1";
    provider_id = "apple.asr";
    accepted_input_format = microphone;
    input_mode = streaming;
    output_mode = streaming;
  };
  command_tx = 7;
  event_rx = some 8;
}

abbrev recogniser : Bridges (Unit {0}) (Unit {0})
recogniser = record no_bridges { start_stream = λ request. ok microphone_session }

abbrev start_it : ClientMessage (Unit {0}) (Unit {0}) (Unit {0})
start_it = asr_start "r1" (record {
  provider = record {
    mode = auto;
    provider_id = none;
    required_capabilities = [];
    preferred_capabilities = [];
  };
  input_format = microphone;
  options = record {
    language = none;
    hints = [];
    interim_results = true;
    timestamps = false;
    punctuation = false;
    prefer_on_device = false;
    provider_options = tt;
  };
})

abbrev frames :
    List (Bridges (Unit {0}) (Unit {0}) × Fallible.Result (Frame (Unit {0}) (Unit {0}) (Unit {0})))
frames =
    (recogniser, Fallible.ok (Frame.message start_it))
    ∷ (recogniser, Fallible.ok (Frame.binary (1 ∷ 2 ∷ [])))
    ∷ []

abbrev connected : Connection
connected = record listening { active_session = none; forwarding = [] }

-- The started session is stopped as the connection ends.
started_stopped :
    (handle_client_websocket frames connected).1.commands
    ≡ (7, asr_command AsrEvents.BridgeCommand.stop)
      ∷ (7, asr_command (AsrEvents.BridgeCommand.push_audio (1 ∷ 2 ∷ [])))
      ∷ []
unfolding handle_client_websocket
started_stopped = refl
