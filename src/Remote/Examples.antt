-- ===== src/Remote/Examples.antt =====
-- A session on the recogniser of a gateway with two agents.
use speechmesh.Common.{
  ℕ, ◌≡◌, refl, ◌==◌, String, true, false, Option, none, some, List, [], ◌∷◌, ◌++◌, map,
  if◌then◌else◌,
}
use speechmesh.Common.HashMap.{get, values}
use speechmesh.Core.{SessionId, auto, pcm_s16le}
use speechmesh.Asr.{StreamRequest}
use speechmesh.Transport.Agent.{session_start}
use speechmesh.Device.Examples.{recogniser}
use speechmesh.Bridges.AsrEvents.{push_audio, commit, error, ended}
use speechmesh.Gateway.State.{Gateway, command, event}
use speechmesh.Gateway.Log.{pushed}
use speechmesh.Server.Control.Examples.{gateway}
use speechmesh.Gateway.Tasks.{select_agent}
use speechmesh.Device.Registry
use speechmesh.Remote.{
  RemoteAgentAsrBridgeConfig, NewSession, session_of, start_stream, start_received, outbound,
}
use speechmesh.Remote.Handshake.{
  acknowledges, step_of, only_waiting, answer_of, route_of, told, start_stream_answered,
}
use speechmesh.Remote.Commands.{forward, forward_commands_to_agent_reports}

abbrev request : StreamRequest (Unit {0})
request = record {
  provider = record {
    mode = auto;
    provider_id = some "apple.asr";
    required_capabilities = [];
    preferred_capabilities = [];
  };
  input_format = record { encoding = pcm_s16le; sample_rate_hz = 16_000; channels = 1 };
  options = record {
    language = none;
    hints = [];
    interim_results = true;
    timestamps = false;
    punctuation = false;
    prefer_on_device = false;
    provider_options = tt;
  };
}

abbrev config : RemoteAgentAsrBridgeConfig
config = record { provider_id = "apple.asr"; display_name = none }

abbrev new : NewSession
new = record { session_id = "s7"; event_tx = 50; started_tx = 51 }

abbrev get_option : Unit {0} → String → Option (Unit {0})
get_option options key = none

abbrev as_str : Unit {0} → Option String
as_str value = none

start_stream_answered_example :
    (h : Gateway (Unit {0})) × (start_stream get_option as_str
        (only_waiting (step_of "s7" (acknowledges "apple.asr")))
        config
        new
        request
        gateway
      ≡ (
        answer_of (acknowledges "apple.asr") (session_of get_option as_str config "s7" request),
        h,
      ))
    × ((k : SessionId)
        → get k h.sessions
          ≡ (if "s7" == k then route_of (acknowledges "apple.asr") new recogniser else get k []))
    × (h.log
        ≡ told (acknowledges "apple.asr") 51
          ++ command recogniser.command_tx (session_start "s7" request) ∷ [])
unfolding select_agent Registry.select_agent values start_received
start_stream_answered_example =
    start_stream_answered request new recogniser get_option as_str config (acknowledges "apple.asr")
      gateway refl refl refl refl refl

abbrev base64 : List ℕ → String
base64 bytes = "AQID"

forward_commands_to_agent_reports_example :
    forward {V = Unit {0}} base64 "s7" 11 50 0 (push_audio (1 ∷ []) ∷ commit ∷ []) gateway
    ≡ record gateway {
      log =
          if gateway.is_open 11
          then pushed 11 (map (outbound base64 "s7") (push_audio (1 ∷ []) ∷ commit ∷ [])) []
          else event 50 (ended (some "agent_disconnected"))
            ∷ event 50 (error "agent command channel closed")
            ∷ [];
    }
forward_commands_to_agent_reports_example =
    forward_commands_to_agent_reports base64 "s7" 11 50 0 (push_audio (1 ∷ [])) (commit ∷ [])
      gateway refl
