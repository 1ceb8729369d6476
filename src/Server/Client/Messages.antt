-- ===== src/Server/Client/Messages.antt =====
-- `handle_discover`, `handle_client_message` and the loop of `handle_client_websocket` in
-- speechmeshd/src/server.rs.
use speechmesh.Common.{
  ℕ, String, Bool, true, false, Option, none, some, List, [], ◌∷◌, ◌++◌, ◌||◌, any, map_option, ◌⧺◌,
}
use speechmesh.Common.Fallible
use speechmesh.Core.{CapabilityDomain, same_domain, ProviderDescriptor}
use speechmesh.Core
use speechmesh.Bridges.Error.{Result, ok, err}
use speechmesh.Bridges.AsrEvents.{BridgeCommand, push_audio}
use speechmesh.Bridges.TtsEvents.{BridgeTtsCommand, append_input}
use speechmesh.Transport.Client.{
  ClientMessage, hello, discover, asr_transcribe, asr_start, asr_commit, tts_voices, tts_start,
  tts_input_append, tts_commit, session_stop, session_cancel, ping,
}
use speechmesh.Transport.Server.{hello_ok, discover_result, tts_voices_result, error, pong}
use speechmesh.Server.Client.{
  ServerError, invalid_request, unsupported, session_not_found, bridge, to_error_info,
  ActiveSession, asr, tts, session_id, asr_command, tts_command, TtsBridge, Bridges, Connection,
  Handled, fail, reply, tell, command, stop, with_active_asr, with_active_tts, stop_session,
  begin_asr, begin_tts,
}

abbrev is_nil : List CapabilityDomain → Bool
is_nil [] = true
is_nil (d ∷ ds) = false

abbrev wants : CapabilityDomain → List CapabilityDomain → Bool
wants domain requested = is_nil requested || any (λ d. same_domain d domain) requested

abbrev tts_descriptors : {V F : Type 0} → Option (TtsBridge V F) → List ProviderDescriptor
tts_descriptors none = []
tts_descriptors (some b) = b.descriptors

abbrev when : Bool → List ProviderDescriptor → List ProviderDescriptor
when true ds = ds
when false ds = []

unfoldable pub handle_discover :
    {V F : Type 0} → List CapabilityDomain → Bridges V F → List ProviderDescriptor
handle_discover domains bridges =
    when (wants Core.CapabilityDomain.asr domains) bridges.asr_descriptors
    ++ when (wants Core.CapabilityDomain.tts domains) (tts_descriptors bridges.tts_bridge)

-- A result of a bridge, whose error is passed on with `?`.
abbrev pub try : {A : Type 0} → Result A → (A → Connection → Handled) → Connection → Handled
try (ok a) then_do s = then_do a s
try (err e) then_do s = fail (bridge e) s

abbrev pub with_tts :
    {V F : Type 0}
    → Option (TtsBridge V F)
    → (TtsBridge V F → Connection → Handled)
    → Connection
    → Handled
with_tts none then_do s = fail (unsupported "tts is not enabled in speechmeshd") s
with_tts (some b) then_do s = then_do b s

-- The guard of both starts.
abbrev pub if_idle : (Connection → Handled) → Connection → Handled
if_idle then_do s = elim s.active_session [
  | none ↦ then_do s
  | some active ↦ fail (unsupported "one active session per connection") s
]

-- `send_error`, without a request's id.
abbrev pub send_error : Option Core.SessionId → ServerError → Connection → Connection
unfolding to_error_info
send_error id e s = tell (error none id (to_error_info e)) s

abbrev pub active_id : Connection → Option Core.SessionId
active_id s = map_option session_id s.active_session

-- The error of a handled message, if there is one, goes to the client.
abbrev pub report : Handled → Connection
report (none, s) = s
report (some e, s) = send_error (active_id s) e s

abbrev pub push : ActiveSession → List ℕ → Connection → Connection
push (asr id handle) bytes s =
    let (result, s') = command handle.command_tx (asr_command (push_audio bytes)) s in
    elim result [ none ↦ s' | some e ↦ send_error (some id) e s' ]
push (tts id handle) bytes s =
    send_error (some id) (unsupported "binary frames are reserved for ASR audio input") s

-- What is done when the loop has ended.
unfoldable pub disconnect : Connection → Connection
disconnect s = elim s.active_session [
  | none ↦ s
  | some active ↦ (stop active (record s { active_session = none })).1
]

-- A frame of the socket, a text as it parses. Frames that change nothing are `ignored`.
pub data Frame (V F T : Type 0) : Type 0 where
  message : ClientMessage V F T → Frame V F T
  invalid : String → Frame V F T
  binary : List ℕ → Frame V F T
  ping_frame ignored : Frame V F T

module _ {V F T : Type 0} where
  unfoldable pub handle_client_message : Bridges V F → ClientMessage V F T → Connection → Handled
  unfolding handle_discover with_active_asr with_active_tts stop_session
  handle_client_message bridges (hello request_id payload) s =
      reply
        (hello_ok request_id (record {
          protocol_version = payload.protocol_version;
          server_name = s.server_name;
          one_session_per_connection = true;
        }))
        s
  handle_client_message bridges (discover request_id domains) s =
      reply (discover_result request_id (handle_discover domains bridges)) s
  handle_client_message bridges (asr_start request_id payload) s =
      if_idle (try (bridges.start_stream payload) (begin_asr request_id)) s
  handle_client_message bridges (asr_commit id) s =
      with_active_asr id (λ handle. command handle.command_tx (asr_command BridgeCommand.commit)) s
  handle_client_message bridges (tts_voices request_id payload) s =
      with_tts bridges.tts_bridge
        (λ b. try (b.list_voices payload) (λ voices. reply (tts_voices_result request_id voices))) s
  handle_client_message bridges (tts_start request_id payload) s =
      if_idle
        (with_tts bridges.tts_bridge (λ b. try (b.start_stream payload) (begin_tts request_id))) s
  handle_client_message bridges (tts_input_append id delta) s =
      with_active_tts id (λ handle. command handle.command_tx (tts_command (append_input delta))) s
  handle_client_message bridges (tts_commit id) s =
      with_active_tts id (λ handle. command handle.command_tx (tts_command BridgeTtsCommand.commit))
        s
  handle_client_message bridges (session_stop id) s = stop_session id s
  handle_client_message bridges (session_cancel id) s = stop_session id s
  handle_client_message bridges (ping request_id) s = reply (pong request_id) s
  handle_client_message bridges (asr_transcribe request_id payload) s =
      fail (unsupported "asr.transcribe is not implemented in speechmeshd v0") s

  -- One turn of the loop.
  unfoldable pub handle_frame : Bridges V F → Frame V F T → Connection → Connection
  unfolding handle_client_message
  handle_frame bridges (message m) s = report (handle_client_message bridges m s)
  handle_frame bridges (invalid e) s =
      send_error (active_id s) (invalid_request ("invalid json frame: " ⧺ e)) s
  handle_frame bridges (binary bytes) s = elim s.active_session [
    | none ↦ send_error none (session_not_found "no active ASR session") s
    | some active ↦ push active bytes s
  ]
  handle_frame bridges ping_frame s = tell (pong none) s
  handle_frame bridges ignored s = s

  -- The loop over what the socket yields, up to a close or its end. A read that fails returns at
  -- once, past the stop.
  unfoldable pub handle_client_websocket :
      List (Bridges V F × Fallible.Result (Frame V F T))
      → Connection
      → Fallible.Result (Unit {0}) × Connection
  unfolding handle_frame disconnect
  handle_client_websocket [] s = (Fallible.ok tt, disconnect s)
  handle_client_websocket ((bridges, Fallible.ok frame) ∷ rest) s =
      handle_client_websocket rest (handle_frame bridges frame s)
  handle_client_websocket ((bridges, Fallible.err e) ∷ rest) s =
      (Fallible.err ("read websocket frame failed: " ⧺ e), s)
