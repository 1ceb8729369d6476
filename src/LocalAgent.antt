-- ===== src/LocalAgent.antt =====
-- The agent that runs a recogniser on its own machine: handle_gateway_message of
-- speechmeshd/src/agent.rs. What the bridge answers is an argument; a session's controller is the
-- channel of its commands.
pub mod Events
pub mod Examples
use speechmesh.Common.{ℕ, String, Option, none, some, List, [], ◌∷◌, ◌⧺◌}
use speechmesh.Common.Fallible
use speechmesh.Common.HashMap.{HashMap, get, insert, remove}
use speechmesh.Core.{SessionId}
use speechmesh.Asr.{StreamRequest}
use speechmesh.Transport.Agent.{
  AgentTaskState, AgentToGatewayMessage, GatewayToAgentMessage, hello_ok, session_start,
  session_audio, session_commit, session_stop, task_play_audio_start, task_play_audio_chunk,
  task_play_audio_finish, ping,
}
use speechmesh.Transport.Agent
use speechmesh.Device.Registry.{Sender}
use speechmesh.Bridges.Error.{Result, ok, err, display}
use speechmesh.Bridges.AsrEvents.{
  BridgeAsrEvent, partial, final, ended, error, BridgeCommand, push_audio, commit, stop,
}

-- What the bridge answers to a start: the provider of the session, and its controller.
pub record Started : Type 0 where
  pub provider_id : String
  pub controller : Sender

-- The frames that are sent, the commands that controllers are given, and the sessions after.
abbrev pub Handled : Type 0
Handled = List AgentToGatewayMessage × List (Sender × BridgeCommand) × HashMap Sender

abbrev error_frame : SessionId → String → AgentToGatewayMessage
error_frame session_id message = Agent.error (some session_id) message

abbrev unsupported_task : String → AgentToGatewayMessage
unsupported_task task_id = Agent.task_status task_id (record {
  state = AgentTaskState.failed;
  message = some "play_audio tasks are not supported by this ASR-only local agent";
})

-- `decode` is that of the base64 crate. `give` says how the giving of a command ends.
module _ {V : Type 0} (decode : String → Fallible.Result (List ℕ))
    (start_stream : StreamRequest V → Result Started)
    (give : Sender → BridgeCommand → Result (Unit {0})) where
  abbrev given : SessionId → Sender → BridgeCommand → HashMap Sender → Handled
  given session_id controller c sessions = elim (give controller c) [
    | ok done ↦ ([], (controller, c) ∷ [], sessions)
    | err e ↦ (error_frame session_id (display e) ∷ [], [], sessions)
  ]

  abbrev pushed_audio : SessionId → Sender → Fallible.Result (List ℕ) → HashMap Sender → Handled
  pushed_audio session_id controller (Fallible.ok bytes) sessions =
      given session_id controller (push_audio bytes) sessions
  pushed_audio session_id controller (Fallible.err message) sessions =
      (error_frame session_id ("invalid audio base64: " ⧺ message) ∷ [], [], sessions)

  unfoldable pub handle_gateway_message : GatewayToAgentMessage V → HashMap Sender → Handled
  unfolding display
  handle_gateway_message (hello_ok server_name) sessions = ([], [], sessions)
  handle_gateway_message ping sessions = (Agent.AgentToGatewayMessage.pong ∷ [], [], sessions)
  handle_gateway_message (session_start session_id request) sessions = elim (start_stream request) [
    | ok s ↦ (
      Agent.session_started session_id s.provider_id ∷ [],
      [],
      insert session_id s.controller sessions,
    )
    | err e ↦ (error_frame session_id (display e) ∷ [], [], sessions)
  ]
  handle_gateway_message (session_audio session_id data_base64) sessions =
      elim (get session_id sessions) [
        | some controller ↦ pushed_audio session_id controller (decode data_base64) sessions
        | none ↦ (error_frame session_id "session not found" ∷ [], [], sessions)
      ]
  handle_gateway_message (session_commit session_id) sessions = elim (get session_id sessions) [
    | some controller ↦ given session_id controller commit sessions
    | none ↦ ([], [], sessions)
  ]
  handle_gateway_message (session_stop session_id) sessions = elim (get session_id sessions) [
    | some controller ↦ given session_id controller stop sessions
    | none ↦ ([], [], sessions)
  ]
  handle_gateway_message (task_play_audio_start task_id format) sessions =
      (unsupported_task task_id ∷ [], [], sessions)
  handle_gateway_message (task_play_audio_chunk task_id data_base64) sessions =
      (unsupported_task task_id ∷ [], [], sessions)
  handle_gateway_message (task_play_audio_finish task_id) sessions =
      (unsupported_task task_id ∷ [], [], sessions)

-- The `match` on an event, and what it does to the sessions.
unfoldable pub message_of : SessionId → BridgeAsrEvent → AgentToGatewayMessage
message_of session_id (partial text) = Agent.asr_partial session_id text
message_of session_id (final transcript) = Agent.asr_final session_id transcript
message_of session_id (ended reason) = Agent.session_ended session_id reason
message_of session_id (error message) = Agent.error (some session_id) message

abbrev pub sessions_after : SessionId → BridgeAsrEvent → HashMap Sender → HashMap Sender
sessions_after session_id (ended reason) sessions = remove session_id sessions
sessions_after session_id e sessions = sessions

-- The task that forwards a session's events until their channel ends, with what it sends. The
-- writer takes every frame.
unfoldable pub forward_events :
    SessionId → List BridgeAsrEvent → HashMap Sender → List AgentToGatewayMessage × HashMap Sender
unfolding message_of
forward_events session_id [] sessions = ([], remove session_id sessions)
forward_events session_id (e ∷ events) sessions =
    let (sent, later) = forward_events session_id events (sessions_after session_id e sessions) in
    (message_of session_id e ∷ sent, later)
