-- ===== src/LocalAgent/Events.antt =====
-- The events of a recogniser, through its agent and the gateway: handle_gateway_message and
-- handle_agent_message of speechmeshd/src/agent.rs.
use speechmesh.Common.{
  ◌≡◌, refl, ap, ◌==◌, String, Bool, true, false, all, Option, none, some, List, [], ◌∷◌, ◌++◌,
  if◌then◌else◌, arith,
}
use speechmesh.Common.HashMap.{HashMap, get, remove, get-remove}
use speechmesh.Core.{SessionId}
use speechmesh.Transport.Agent.{AgentToGatewayMessage}
use speechmesh.Device.Registry.{Sender}
use speechmesh.Bridges.AsrEvents.{BridgeAsrEvent, partial, final, ended, error}
use speechmesh.Gateway.State.{Gateway, Delivery, SessionRoute, event}
use speechmesh.Gateway.Sessions.{route_event, route_session_ended}
use speechmesh.Gateway.Tasks.{handle_agent_message}
use speechmesh.LocalAgent.{message_of, sessions_after, forward_events}

-- Events that do not end the session.
abbrev pub goes_on : BridgeAsrEvent → Bool
goes_on (ended reason) = false
goes_on _ = true

-- A session that has started.
abbrev pub running : String → Sender → SessionRoute
running agent_id tx = record { agent_id = agent_id; event_tx = tx; started_tx = none }

sessions_kept :
    (session_id : SessionId) (e : BridgeAsrEvent) (sessions : HashMap Sender)
    → goes_on e ≡ true
    → sessions_after session_id e sessions ≡ sessions
sessions_kept session_id (partial text) sessions on = refl
sessions_kept session_id (final transcript) sessions on = refl
sessions_kept session_id (error message) sessions on = refl
sessions_kept session_id (ended reason) sessions on = cc

forward_on :
    (session_id : SessionId) (e : BridgeAsrEvent) (events : List BridgeAsrEvent)
    (sessions : HashMap Sender)
    → goes_on e ≡ true
    → forward_events session_id (e ∷ events) sessions ≡ (
      message_of session_id e ∷ (forward_events session_id events sessions).0,
      (forward_events session_id events sessions).1,
    )
unfolding forward_events
forward_on session_id e events sessions on =
    ap
      (λ (s : HashMap Sender). (
        message_of session_id e ∷ (forward_events session_id events s).0,
        (forward_events session_id events s).1,
      ))
      (sessions_kept session_id e sessions on)

forward_end :
    (session_id : SessionId) (reason : Option String) (sessions : HashMap Sender)
    → forward_events session_id (ended reason ∷ []) sessions
      ≡ (message_of session_id (ended reason) ∷ [], remove session_id (remove session_id sessions))
unfolding forward_events
forward_end session_id reason sessions = refl

module _ {V : Type 0} where
  unfoldable pub handle_messages : List AgentToGatewayMessage → Gateway V → Gateway V
  handle_messages [] g = g
  handle_messages (m ∷ messages) g = handle_messages messages (handle_agent_message m g)

  -- The events on a channel, in order, on top of a log.
  abbrev pub with_events : Sender → List BridgeAsrEvent → List (Delivery V) → List (Delivery V)
  with_events tx [] log = log
  with_events tx (e ∷ events) log = with_events tx events (event tx e ∷ log)

  module _ (session_id agent_id : String) (tx : Sender) where
    event_arrives :
        (e : BridgeAsrEvent) (g : Gateway V)
        → goes_on e ≡ true
        → get session_id g.sessions ≡ some (running agent_id tx)
        → g.is_open tx ≡ true
        → handle_agent_message (message_of session_id e) g ≡ record g { log = event tx e ∷ g.log }
    unfolding handle_agent_message message_of route_event
    event_arrives (partial text) g on at hears = ground (arith, at, hears)
    event_arrives (final transcript) g on at hears = ground (arith, at, hears)
    event_arrives (error message) g on at hears = ground (arith, at, hears)
    event_arrives (ended reason) g on at hears = cc

    end_arrives :
        (reason : Option String) (g : Gateway V)
        → get session_id g.sessions ≡ some (running agent_id tx)
        → g.is_open tx ≡ true
        → handle_agent_message (message_of session_id (ended reason)) g ≡ record g {
          sessions = remove session_id g.sessions;
          log = event tx (ended reason) ∷ g.log;
        }
    unfolding handle_agent_message message_of route_session_ended
    end_arrives reason g at hears = ground (arith, at, hears)

    -- Let a session run on an agent, with a listener that is open at the gateway, and let its
    -- recogniser's events be none that ends the session, and then an end. What the agent sends for
    -- them makes the gateway give the listener the same events, in the same order, and nothing
    -- else, and the session is gone at the gateway and at the agent, which keeps its other
    -- sessions.
    pub forward_events_arrive :
        (events : List BridgeAsrEvent) (reason : Option String) (sessions : HashMap Sender)
        (g : Gateway V)
        → all goes_on events ≡ true
        → get session_id g.sessions ≡ some (running agent_id tx)
        → g.is_open tx ≡ true
        → (handle_messages (forward_events session_id (events ++ ended reason ∷ []) sessions).0 g
            ≡ record g {
              sessions = remove session_id g.sessions;
              log = event tx (ended reason) ∷ with_events tx events g.log;
            })
          × ((k : String)
              → get k (forward_events session_id (events ++ ended reason ∷ []) sessions).1
                ≡ (if session_id == k then none else get k sessions))
    unfolding handle_messages
    forward_events_arrive [] reason sessions g on at hears = (
      rw (forward_end session_id reason sessions) (end_arrives reason g at hears),
      λ k. rw (forward_end session_id reason sessions) (
          ground (
            arith,
            get-remove session_id k (remove session_id sessions),
            get-remove session_id k sessions,
          )),
    )
    forward_events_arrive (e ∷ events) reason sessions g on at hears =
        let on_first : goes_on e ≡ true = ground (arith, on) in
        let on_rest : all goes_on events ≡ true = ground (arith, on) in
        let (arrive, gone) =
          forward_events_arrive events reason sessions (record g { log = event tx e ∷ g.log })
            on_rest at hears in
        (
          rw
              (
                forward_on session_id e (events ++ ended reason ∷ []) sessions on_first,
                handle_messages,
                event_arrives e g on_first at hears,
              )
              arrive,
          λ k.
              rw (forward_on session_id e (events ++ ended reason ∷ []) sessions on_first) (gone k),
        )
