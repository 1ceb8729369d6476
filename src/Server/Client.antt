-- ===== src/Server/Client.antt =====
-- A client's connection in speechmeshd/src/server.rs: `handle_client_websocket`,
-- `handle_client_message` and what they call.
--
-- The bridges answer as `Bridges` says, which may be another at each message. A session's task that
-- forwards its events is listed in `forwarding`.
pub mod Messages
pub mod Moves
pub mod Sessions
pub mod Balance
pub mod Closing
use speechmesh.Common.{
  String, Bool, true, false, Option, none, some, List, [], ◌∷◌, ◌++◌, ◌||◌, any, map_option,
  if◌then◌else◌, ◌==◌, is_some, ℕ,
}
use speechmesh.Core.{
  RequestId, SessionId, CapabilityDomain, same_domain, ProviderDescriptor, ErrorInfo,
  new_error_info,
}
use speechmesh.Core
use speechmesh.Asr
use speechmesh.Asr.{AsrSession}
use speechmesh.Tts
use speechmesh.Tts.{TtsSession, SynthesisInputKind, VoiceDescriptor}
use speechmesh.Bridges.Error.{BridgeError, display, Result}
use speechmesh.Bridges.AsrEvents.{BridgeCommand, push_audio}
use speechmesh.Bridges.AsrEvents
use speechmesh.Bridges.TtsEvents.{BridgeTtsCommand, append_input}
use speechmesh.Bridges.TtsEvents
use speechmesh.Transport.Client.{
  HelloRequest, VoiceListRequest, ClientMessage, hello, discover, asr_transcribe, asr_start,
  asr_commit, tts_voices, tts_start, tts_input_append, tts_commit, session_stop, session_cancel,
  ping,
}
use speechmesh.Transport.Server.{
  ServerMessage, hello_ok, discover_result, session_started, tts_voices_result, error, pong,
}

pub data ServerError : Type 0 where
  invalid_request unsupported session_not_found : String → ServerError
  bridge : BridgeError → ServerError
  disconnected : ServerError

unfoldable pub to_error_info : ServerError → ErrorInfo
unfolding display
to_error_info (invalid_request message) = new_error_info "invalid_request" message
to_error_info (unsupported message) = new_error_info "unsupported_request" message
to_error_info (session_not_found message) = new_error_info "session_not_found" message
to_error_info (bridge e) = new_error_info "provider_error" (display e)
to_error_info disconnected = new_error_info "connection_closed" "connection closed"

-- A session's handle: the number of its command channel, and its events unless they are taken.
pub record BridgeAsrSessionHandle : Type 0 where
  pub session : AsrSession
  pub command_tx : ℕ
  pub event_rx : Option ℕ

pub record BridgeTtsSessionHandle : Type 0 where
  pub session : TtsSession
  pub input_kind : SynthesisInputKind
  pub command_tx : ℕ
  pub event_rx : Option ℕ

pub data ActiveSession : Type 0 where
  asr : SessionId → BridgeAsrSessionHandle → ActiveSession
  tts : SessionId → BridgeTtsSessionHandle → ActiveSession

unfoldable pub session_id : ActiveSession → SessionId
session_id (asr id handle) = id
session_id (tts id handle) = id

pub data Command : Type 0 where
  asr_command : BridgeCommand → Command
  tts_command : BridgeTtsCommand → Command

pub record TtsBridge (V F : Type 0) : Type 0 where
  pub descriptors : List ProviderDescriptor
  pub list_voices : VoiceListRequest → Result (List VoiceDescriptor)
  pub start_stream : Tts.StreamRequest V F → Result BridgeTtsSessionHandle

pub record Bridges (V F : Type 0) : Type 0 where
  pub asr_descriptors : List ProviderDescriptor
  pub start_stream : Asr.StreamRequest V → Result BridgeAsrSessionHandle
  pub tts_bridge : Option (TtsBridge V F)

-- `accepts` says which command channels still have a receiver, `out_open` whether the writer lives.
-- `sent` and `commands` hold what went out, the newest first.
pub record Connection : Type 0 where
  pub server_name : String
  pub active_session : Option ActiveSession
  pub accepts : ℕ → Bool
  pub out_open : Bool
  pub sent : List ServerMessage
  pub commands : List (ℕ × Command)
  pub forwarding : List (SessionId × ℕ)

-- `Ok(())`, or an error, with the connection after it.
abbrev pub Handled : Type 0
Handled = Option ServerError × Connection

abbrev pub fail : ServerError → Connection → Handled
fail e s = (some e, s)

-- A send to the client that fails with `Disconnected`.
abbrev pub reply : ServerMessage → Connection → Handled
reply m s = if s.out_open then (none, record s { sent = m ∷ s.sent }) else (some disconnected, s)

-- A send to the client whose error is dropped.
abbrev pub tell : ServerMessage → Connection → Connection
tell m s = if s.out_open then record s { sent = m ∷ s.sent } else s

-- `push_audio`, `append_input`, `commit` and `stop` of the handles.
abbrev pub command : ℕ → Command → Connection → Handled
command tx c s =
    if s.accepts tx
    then (none, record s { commands = (tx, c) ∷ s.commands })
    else (some (bridge (BridgeError.disconnected "bridge command channel closed")), s)

abbrev pub stop : ActiveSession → Connection → Handled
stop (asr id handle) s = command handle.command_tx (asr_command BridgeCommand.stop) s
stop (tts id handle) s = command handle.command_tx (tts_command BridgeTtsCommand.stop) s

-- `expect_active_asr` and what is done with its handle.
unfoldable pub with_active_asr :
    SessionId → (BridgeAsrSessionHandle → Connection → Handled) → Connection → Handled
with_active_asr id then_do s = elim s.active_session [
  | none ↦ fail (session_not_found "no active session") s
  | some (asr active_id handle) ↦
      if active_id == id
      then then_do handle s
      else fail (session_not_found "session id does not match active session") s
  | some (tts active_id handle) ↦
      fail (unsupported "the active session is a TTS session, not ASR") s
]

unfoldable pub with_active_tts :
    SessionId → (BridgeTtsSessionHandle → Connection → Handled) → Connection → Handled
with_active_tts id then_do s = elim s.active_session [
  | none ↦ fail (session_not_found "no active session") s
  | some (tts active_id handle) ↦
      if active_id == id
      then then_do handle s
      else fail (session_not_found "session id does not match active session") s
  | some (asr active_id handle) ↦
      fail (unsupported "the active session is an ASR session, not TTS") s
]

unfoldable pub stop_session : SessionId → Connection → Handled
unfolding session_id
stop_session id s = elim s.active_session [
  | none ↦ fail (session_not_found "no active session") s
  | some current ↦
      if session_id current == id
      then (let (result, s') = stop current s in
          elim result [
            | some e ↦ (some e, s')
            | none ↦ (none, record s' { active_session = none })
          ])
      else fail (session_not_found "session id does not match active session") s
]

abbrev pub asr_started : RequestId → AsrSession → ServerMessage
asr_started request_id session = session_started (some request_id) session.id (record {
  domain = Core.CapabilityDomain.asr;
  provider_id = session.provider_id;
  accepted_input_format = some session.accepted_input_format;
  accepted_output_format = none;
  input_mode = some session.input_mode;
  output_mode = some session.output_mode;
})

abbrev pub tts_started : RequestId → TtsSession → ServerMessage
tts_started request_id session = session_started (some request_id) session.id (record {
  domain = Core.CapabilityDomain.tts;
  provider_id = session.provider_id;
  accepted_input_format = none;
  accepted_output_format = session.accepted_output_format;
  input_mode = some session.input_mode;
  output_mode = some session.output_mode;
})

-- The forwarding task is spawned, the client is told, and only then is the session active.
abbrev pub begin : SessionId → ℕ → ServerMessage → ActiveSession → Connection → Handled
begin id event_rx message active s =
    let (result, s') = reply message (record s { forwarding = (id, event_rx) ∷ s.forwarding }) in
    elim result [
      | some e ↦ (some e, s')
      | none ↦ (none, record s' { active_session = some active })
    ]

abbrev pub begin_asr : RequestId → BridgeAsrSessionHandle → Connection → Handled
begin_asr request_id handle s = elim handle.event_rx [
  | none ↦ fail (bridge (BridgeError.disconnected "missing event stream")) s
  | some rx ↦
      begin handle.session.id rx (asr_started request_id handle.session)
        (asr handle.session.id (record handle { event_rx = none })) s
]

abbrev pub begin_tts : RequestId → BridgeTtsSessionHandle → Connection → Handled
begin_tts request_id handle s = elim handle.event_rx [
  | none ↦ fail (bridge (BridgeError.disconnected "missing TTS event stream")) s
  | some rx ↦
      begin handle.session.id rx (tts_started request_id handle.session)
        (tts handle.session.id (record handle { event_rx = none })) s
]
