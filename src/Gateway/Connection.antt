-- ===== src/Gateway/Connection.antt =====
-- An agent's connection: `handle_agent_connection` in speechmeshd/src/agent.rs, from the hello on.
--
-- Times are milliseconds. The loop waits for one event at a time; before each of them the other
-- connections may have changed the gateway, which `Arrival` tells.
pub mod Leaving
use speechmesh.Common.{
  ℕ, ◌-◌, String, Bool, List, [], ◌∷◌, Option, none, some, ltb, if◌then◌else◌, ◌⧺◌,
}
use speechmesh.Transport.Agent.{
  AgentHelloPayload, AgentToGatewayMessage, GatewayToAgentMessage, hello_ok, ping,
}
use speechmesh.Transport.Agent
use speechmesh.Device.Registry.{Sender}
use speechmesh.Bridges.Error.{BridgeError, io, protocol, disconnected, Result, ok, err}
use speechmesh.Gateway.State.{Gateway, command, send}
use speechmesh.Gateway.Sessions.{register_agent, unregister_agent}
use speechmesh.Gateway.Tasks.{handle_agent_message}

-- A frame of the socket, a text as it parses. Frames that change nothing are `ignored`.
pub data AgentFrame : Type 0 where
  message : AgentToGatewayMessage → AgentFrame
  invalid : String → AgentFrame
  ping_frame close_frame ignored : AgentFrame

-- What the loop's `select!` may yield: the next frame, a failed read, the end of the stream, a tick
-- of the heartbeat, or the end of the writer. A frame and a tick have their time.
pub data AgentEvent : Type 0 where
  frame : ℕ → AgentFrame → AgentEvent
  unreadable : String → AgentEvent
  end_of_stream : AgentEvent
  heartbeat : ℕ → AgentEvent
  writer_ended : AgentEvent

abbrev pub agent_heartbeat_timeout : ℕ
agent_heartbeat_timeout = 90000

-- What a turn of the loop leads to: another with the time of the last frame, `break`, or an error
-- that is returned at once.
pub data Turn : Type 0 where
  go_on : ℕ → Turn
  leave : Turn
  give_up : BridgeError → Turn

-- What the other connections did, and the event that then arrives.
abbrev pub Arrival : Type 0 → Type 0
Arrival V = (Gateway V → Gateway V) × AgentEvent

-- How the connection stands when its arrivals are used up.
pub data Status : Type 0 where
  running : ℕ → Status
  returned : Result (Unit {0}) → Status

module _ {V : Type 0} where
  abbrev ping_agent : Sender → Gateway V → Gateway V
  ping_agent tx g = send tx (command tx ping) g

  abbrev receive : Sender → ℕ → AgentFrame → Gateway V → Turn × Gateway V
  unfolding handle_agent_message
  receive tx now (message m) g = (go_on now, handle_agent_message m g)
  receive tx now (invalid e) g = (give_up (protocol ("invalid agent frame payload: " ⧺ e)), g)
  receive tx now ping_frame g = (go_on now, ping_agent tx g)
  receive tx now close_frame g = (leave, g)
  receive tx now ignored g = (go_on now, g)

  unfoldable pub turn : Sender → ℕ → AgentEvent → Gateway V → Turn × Gateway V
  unfolding handle_agent_message
  turn tx last_recv (frame now f) g = receive tx now f g
  turn tx last_recv (unreadable e) g = (give_up (io ("read agent frame failed: " ⧺ e)), g)
  turn tx last_recv end_of_stream g = (leave, g)
  turn tx last_recv (heartbeat now) g =
      if ltb agent_heartbeat_timeout (now - last_recv)
      then (leave, g)
      else (go_on last_recv, ping_agent tx g)
  turn tx last_recv writer_ended g = (leave, g)

  -- What a turn leads to, where `rest` is the loop from the next turn on.
  abbrev pub after :
      String → (ℕ → Gateway V → Status × Gateway V) → Turn × Gateway V → Status × Gateway V
  after agent_id rest (go_on last_recv, g) = rest last_recv g
  after agent_id rest (leave, g) = (returned (ok tt), unregister_agent agent_id g)
  after agent_id rest (give_up e, g) = (returned (err e), g)

  unfoldable pub agent_loop :
      String → Sender → List (Arrival V) → ℕ → Gateway V → Status × Gateway V
  unfolding turn unregister_agent
  agent_loop agent_id tx [] last_recv g = (running last_recv, g)
  agent_loop agent_id tx ((others, event) ∷ arrivals) last_recv g =
      after agent_id (agent_loop agent_id tx arrivals) (turn tx last_recv event (others g))

  -- The connection of a client whose first frame is this hello.
  unfoldable pub handle_agent_connection :
      AgentHelloPayload → Sender → String → List (Arrival V) → ℕ → Gateway V → Status × Gateway V
  unfolding register_agent agent_loop
  handle_agent_connection hello tx server_name arrivals now g =
      let (result, g') = register_agent hello tx g in
      elim result [
        | err e ↦ (returned (err e), g')
        | ok done ↦
            if g'.is_open tx
            then (agent_loop hello.agent_id tx arrivals now
                (send tx (command tx (hello_ok server_name)) g'))
            else (returned (err (disconnected "agent writer closed")), g')
      ]
