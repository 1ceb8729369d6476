-- ===== src/Remote.antt =====
-- Recognition on an agent: RemoteAgentAsrBridge and forward_commands_to_agent of
-- speechmeshd/src/agent.rs. A session is the one whose handle `start_stream` returns. `get_option` and
-- `as_str` are those of serde_json. Between two calls on the registry other connections run: `others` says what they do.
pub mod Handshake
pub mod Commands
pub mod Examples
use speechmesh.Common.{
  ℕ, ◌+◌, ◌==◌, ◌⧺◌, ◌||◌, ◌&&◌, String, Bool, true, false, not, Option, none, some, List, [], ◌∷◌,
  if◌then◌else◌, beq, and_then, map_option, unwrap_or, is_text,
}
use speechmesh.Common.HashMap.{get}
use speechmesh.Common.Text.{trim, to_ascii_lowercase}
use speechmesh.Core.{
  ProviderDescriptor, new_descriptor, with_capability, enabled_capability, CapabilityDomain,
  RuntimeMode, SessionId, StreamMode, buffered, streaming,
}
use speechmesh.Asr.{StreamRequest, AsrSession}
use speechmesh.Transport.Agent.{
  session_start, session_audio, session_commit, session_stop, GatewayToAgentMessage,
}
use speechmesh.Device.Registry.{RegisteredAgent, Sender}
use speechmesh.Bridges.Error.{BridgeError, unavailable, disconnected, Result, ok, err}
use speechmesh.Bridges.AsrEvents.{BridgeCommand, push_audio, commit, stop, error, ended}
use speechmesh.Gateway.State.{Gateway, Delivery, SessionRoute, command, event, started, send}
use speechmesh.Gateway.Sessions.{register_session, fail_session_start}
use speechmesh.Gateway.Tasks.{select_agent}

pub record RemoteAgentAsrBridgeConfig : Type 0 where
  pub provider_id : String
  pub display_name : Option String

unfoldable pub descriptors : RemoteAgentAsrBridgeConfig → List ProviderDescriptor
descriptors config =
    let base =
      new_descriptor config.provider_id (unwrap_or config.display_name "Remote Agent ASR Bridge")
        CapabilityDomain.asr RuntimeMode.remote_gateway in
    with_capability
      (with_capability
        (with_capability
          (with_capability
            (with_capability (with_capability base (enabled_capability "streaming-input"))
              (enabled_capability "buffered-input"))
            (enabled_capability "streaming-output"))
          (enabled_capability "buffered-output"))
        (enabled_capability "on-device"))
      (enabled_capability "agent-backhaul")
    ∷ []

abbrev pub is_other_provider : String → Option String → Bool
is_other_provider own none = false
is_other_provider own (some provider_id) = not (provider_id == own)

-- Where in a start the others run.
pub data StartMoment : Type 0 where
  before_selection before_registration before_send waiting before_failure : StartMoment

-- How the wait for the agent's acknowledgement ends.
pub data Acknowledged : Type 0 where
  answered : Result (Unit {0}) → Acknowledged
  lost timed_out : Acknowledged

-- The new session's id, and its channels.
pub record NewSession : Type 0 where
  pub session_id : SessionId
  pub event_tx : Sender
  pub started_tx : Sender

module _ {V : Type 0} where
  -- What a start's channel has received.
  unfoldable pub start_received : Sender → List (Delivery V) → Option (Result (Unit {0}))
  start_received tx [] = none
  start_received tx (started to result ∷ log) =
      let rest = start_received tx log in if beq to tx then some result else rest
  start_received tx (d ∷ log) = start_received tx log

  -- A receiving half that is dropped.
  abbrev pub close : Sender → Gateway V → Gateway V
  close tx g = record g { is_open = λ (to : Sender). not (beq to tx) && g.is_open to }

  unfoldable pub await_start : NewSession → Gateway V → Acknowledged
  unfolding start_received
  await_start new g = elim (start_received new.started_tx g.log) [
    | some result ↦ answered result
    | none ↦
        elim (and_then (get new.session_id g.sessions) λ (route : SessionRoute). route.started_tx) [
          | some tx ↦ if beq tx new.started_tx then timed_out else lost
          | none ↦ lost
        ]
  ]

module _ {V : Type 0} (get_option : V → String → Option V) (as_str : V → Option String) where
  abbrev option_text : V → String → Option String
  option_text options key =
      map_option (λ (text : String). to_ascii_lowercase (trim text))
        (and_then (get_option options key) as_str)

  unfoldable pub session_of : RemoteAgentAsrBridgeConfig → SessionId → StreamRequest V → AsrSession
  session_of config session_id request = record {
    id = session_id;
    provider_id = config.provider_id;
    accepted_input_format = request.input_format;
    input_mode =
        if is_text (option_text request.options.provider_options "input_mode") "buffered"
        then buffered
        else streaming;
    output_mode =
        if is_text (option_text request.options.provider_options "output_mode") "streaming"
          || request.options.interim_results
        then streaming
        else buffered;
  }

  module _ (others : StartMoment → Gateway V → Gateway V) (config : RemoteAgentAsrBridgeConfig)
      (new : NewSession) where
    abbrev pub give_up : BridgeError → Gateway V → Result AsrSession × Gateway V
    give_up e g = (err e, fail_session_start new.session_id e (others before_failure g))

    -- The last `match`.
    abbrev pub acknowledged :
        StreamRequest V → Acknowledged → Gateway V → Result AsrSession × Gateway V
    acknowledged request (answered (ok done)) g = (ok (session_of config new.session_id request), g)
    acknowledged request (answered (err e)) g = (err e, g)
    acknowledged request lost g = give_up (disconnected "session start acknowledgement lost") g
    acknowledged request timed_out g =
        give_up (unavailable "timed out waiting for agent session start") (close new.started_tx g)

    -- From the sending on, where the agent's channel is open.
    abbrev pub sent_to_agent :
        StreamRequest V → RegisteredAgent → Gateway V → Result AsrSession × Gateway V
    sent_to_agent request agent g =
        let g' = others waiting (
          send agent.command_tx (command agent.command_tx (session_start new.session_id request))
            g) in
        acknowledged request (await_start new g') g'

    abbrev pub start_on :
        StreamRequest V → Option RegisteredAgent → Gateway V → Result AsrSession × Gateway V
    start_on request none g =
        (err (unavailable ("no registered agent available for provider " ⧺ config.provider_id)), g)
    start_on request (some agent) g =
        let g' = others before_send (
          register_session agent.agent_id new.session_id new.event_tx new.started_tx
            (others before_registration g)) in
        if g'.is_open agent.command_tx
        then sent_to_agent request agent g'
        else give_up (disconnected "agent command channel closed") g'

    unfoldable pub start_stream : StreamRequest V → Gateway V → Result AsrSession × Gateway V
    unfolding await_start session_of
    start_stream request g =
        if is_other_provider config.provider_id request.provider.provider_id
        then (
          err (
              unavailable (
                "requested provider "
                ⧺ unwrap_or request.provider.provider_id ""
                ⧺ " is not available on this gateway")),
          g,
        )
        else let g' = others before_selection g in
          start_on request (select_agent config.provider_id g') g'

-- The frame for a command.
unfoldable pub outbound :
    {V : Type 0} → (List ℕ → String) → SessionId → BridgeCommand → GatewayToAgentMessage V
outbound encode session_id (push_audio chunk) = session_audio session_id (encode chunk)
outbound encode session_id commit = session_commit session_id
outbound encode session_id stop = session_stop session_id

module _ {V : Type 0} (encode : List ℕ → String) (others : ℕ → Gateway V → Gateway V)
    (session_id : SessionId) (agent_tx event_tx : Sender) where
  -- The loop over the commands; `index` counts those before.
  unfoldable pub forward_commands_to_agent : ℕ → List BridgeCommand → Gateway V → Gateway V
  unfolding outbound
  forward_commands_to_agent index [] g = g
  forward_commands_to_agent index (c ∷ commands) g =
      let g' = others index g in
      let rest =
        forward_commands_to_agent (index + 1) commands
          (send agent_tx (command agent_tx (outbound encode session_id c)) g') in
      if g'.is_open agent_tx
      then rest
      else send event_tx (event event_tx (ended (some "agent_disconnected")))
          (send event_tx (event event_tx (error "agent command channel closed")) g')
