-- ===== src/Gateway/Connection/Leaving.antt =====
-- When an agent's connection takes it out of the registry, and when it does not.
use speechmesh.Common.{
  ℕ, String, Bool, true, false, ◌≡◌, refl, Option, none, some, List, [], ◌∷◌, arith, ap, ◌∙◌, inl,
  inr, Bool-cases, eq_refl, if◌then◌else◌, All, ltb, ◌-◌,
}
use speechmesh.Common.HashMap.{get, get-remove}
use speechmesh.Transport.Agent.{AgentToGatewayMessage}
use speechmesh.Transport.Agent
use speechmesh.Device.Registry.{RegistryInner, Sender}
use speechmesh.Device.Registry
use speechmesh.Bridges.Error.{ok, err, BridgeError}
use speechmesh.Bridges.AsrEvents.{BridgeAsrEvent}
use speechmesh.Core.{SessionId}
use speechmesh.Gateway.State.{Gateway, Delivery, send}
use speechmesh.Gateway.Log.{send-Logs}
use speechmesh.Gateway.Sessions.{
  Impacted, remove_orphaned_sessions, finish_agent_removal, unregister_agent, mark_session_started,
  fail_session_start, route_event, route_session_ended,
}
use speechmesh.Gateway.Sessions.Notify.{finish_sessions-Logs}
use speechmesh.Gateway.Sessions.Waiters.{finish_tasks-Resolves}
use speechmesh.Gateway.Tasks.{handle_agent_message}
use speechmesh.Gateway.Tasks.Status.{Reported, handle_agent_message-Reported}
use speechmesh.Gateway.Connection.{
  message, invalid, ping_frame, close_frame, ignored, AgentEvent, frame, unreadable, end_of_stream,
  heartbeat, writer_ended, Turn, go_on, leave, give_up, Arrival, Status, running, returned, turn,
  agent_loop, after, agent_heartbeat_timeout,
}

unregister_absent :
    (agent_id : String) (inner : RegistryInner)
    → get agent_id (Registry.unregister_agent inner agent_id).0.agents ≡ none
unfolding Registry.unregister_agent Registry.remove_agent_tasks_locked
unregister_absent agent_id inner =
    ground (arith, get-remove agent_id agent_id inner.agents, eq_refl agent_id)

module _ {V : Type 0} where
  finish_agent_removal_registry :
      (impacted : Impacted) (ids : List String) (g : Gateway V)
      → (finish_agent_removal impacted ids g).device_registry ≡ g.device_registry
  unfolding finish_agent_removal
  finish_agent_removal_registry impacted ids g =
      (finish_tasks-Resolves ids _).device_registry
      ∙ (finish_sessions-Logs impacted g).device_registry

  -- Whatever the state, the agent is gone.
  pub unregister_agent_absent :
      (agent_id : String) (g : Gateway V)
      → get agent_id (unregister_agent agent_id g).device_registry.agents ≡ none
  unfolding unregister_agent Registry.unregister_agent
  unregister_agent_absent agent_id g =
      let (sessions, impacted) = remove_orphaned_sessions g.sessions agent_id in
      let (inner, orphaned) = Registry.unregister_agent g.device_registry agent_id in
      ap (λ (r : RegistryInner). get agent_id r.agents)
        (finish_agent_removal_registry impacted orphaned
          (record g { sessions = sessions; device_registry = inner }))
      ∙ unregister_absent agent_id g.device_registry

  pub same_started :
      (id : SessionId) (g : Gateway V)
      → (mark_session_started id g).device_registry ≡ g.device_registry
  unfolding mark_session_started
  same_started id g = ground arith

  pub same_failed :
      (id : SessionId) (e : BridgeError) (g : Gateway V)
      → (fail_session_start id e g).device_registry ≡ g.device_registry
  unfolding fail_session_start
  same_failed id e g = ground arith

  pub same_ended :
      (id : SessionId) (reason : Option String) (g : Gateway V)
      → (route_session_ended id reason g).device_registry ≡ g.device_registry
  unfolding route_session_ended
  same_ended id reason g = ground arith

  pub same_event :
      (id : SessionId) (e : BridgeAsrEvent) (g : Gateway V)
      → (route_event id e g).device_registry ≡ g.device_registry
  unfolding route_event
  same_event id e g = ground arith

  Reported-agents :
      (task_id : String) (payload : Agent.AgentTaskStatusPayload) (state : Agent.AgentTaskState)
      (g h : Gateway V)
      → Reported task_id payload state g h
      → h.device_registry.agents ≡ g.device_registry.agents
  Reported-agents task_id payload Agent.AgentTaskState.started g h same =
      ap (λ (k : Gateway V). k.device_registry.agents) same
  Reported-agents task_id payload Agent.AgentTaskState.finished g h e = e.agents
  Reported-agents task_id payload Agent.AgentTaskState.failed g h e = e.agents

  one_of :
      (b : Bool) (x y g : Gateway V)
      → x.device_registry ≡ g.device_registry
      → y.device_registry ≡ g.device_registry
      → (if b then x else y).device_registry.agents ≡ g.device_registry.agents
  one_of true x y g p q = ap (λ (r : RegistryInner). r.agents) p
  one_of false x y g p q = ap (λ (r : RegistryInner). r.agents) q

  -- No message of an agent registers or unregisters one.
  pub handle_agent_message_agents :
      (m : AgentToGatewayMessage) (g : Gateway V)
      → (handle_agent_message m g).device_registry.agents ≡ g.device_registry.agents
  unfolding handle_agent_message
  handle_agent_message_agents (Agent.hello payload) g = refl
  handle_agent_message_agents (Agent.session_started id provider_id) g =
      ap (λ (r : RegistryInner). r.agents) (same_started id g)
  handle_agent_message_agents (Agent.asr_partial id text) g =
      ap (λ (r : RegistryInner). r.agents) (same_event id _ g)
  handle_agent_message_agents (Agent.asr_final id transcript) g =
      ap (λ (r : RegistryInner). r.agents) (same_event id _ g)
  handle_agent_message_agents (Agent.session_ended id reason) g =
      ap (λ (r : RegistryInner). r.agents) (same_ended id reason g)
  handle_agent_message_agents (Agent.error (some id) text) g =
      one_of _ _ _ g (same_failed id _ g) (same_event id _ g)
  handle_agent_message_agents (Agent.error none text) g = refl
  handle_agent_message_agents (Agent.task_status task_id payload) g =
      elim (handle_agent_message-Reported task_id payload g) [
        | inl (unknown, same) ↦ ap (λ (k : Gateway V). k.device_registry.agents) same
        | inr (r, known, reported) ↦ Reported-agents task_id payload payload.state g _ reported
      ]
  handle_agent_message_agents Agent.pong g = refl

  send_agents :
      (tx : Sender) (d : Delivery V) (g : Gateway V)
      → (send tx d g).device_registry.agents ≡ g.device_registry.agents
  send_agents tx d g = ap (λ (r : RegistryInner). r.agents) (send-Logs tx d g).device_registry

  turn_agents :
      (tx : Sender) (last_recv : ℕ) (event : AgentEvent) (g : Gateway V)
      → (turn tx last_recv event g).1.device_registry.agents ≡ g.device_registry.agents
  unfolding turn
  turn_agents tx last_recv (frame now (message m)) g = handle_agent_message_agents m g
  turn_agents tx last_recv (frame now (invalid e)) g = refl
  turn_agents tx last_recv (frame now ping_frame) g = send_agents tx _ g
  turn_agents tx last_recv (frame now close_frame) g = refl
  turn_agents tx last_recv (frame now ignored) g = refl
  turn_agents tx last_recv (unreadable e) g = refl
  turn_agents tx last_recv end_of_stream g = refl
  turn_agents tx last_recv (heartbeat now) g =
      elim (Bool-cases (ltb agent_heartbeat_timeout (now - last_recv))) [
        | inl late ↦ rw late refl
        | inr soon ↦ rw soon (send_agents tx _ g)
      ]
  turn_agents tx last_recv writer_ended g = refl

  -- What a connection's loop does to the agent's registration: a return without an error removes
  -- it; otherwise, and also after a return with an error, it is what it was.
  abbrev pub Leaves : String → Gateway V → Status × Gateway V → Type 0
  Leaves agent_id g (returned (ok done), h) = get agent_id h.device_registry.agents ≡ none
  Leaves agent_id g (returned (err e), h) =
      get agent_id h.device_registry.agents ≡ get agent_id g.device_registry.agents
  Leaves agent_id g (running last_recv, h) =
      get agent_id h.device_registry.agents ≡ get agent_id g.device_registry.agents

  -- That the other connections leave the agent's registration alone.
  abbrev pub Spares : String → Arrival V → Type 0
  Spares agent_id (others, event) =
      (g : Gateway V)
      → get agent_id (others g).device_registry.agents ≡ get agent_id g.device_registry.agents

  Leaves-from :
      (agent_id : String) (g g' : Gateway V) (r : Status × Gateway V)
      → get agent_id g'.device_registry.agents ≡ get agent_id g.device_registry.agents
      → Leaves agent_id g' r
      → Leaves agent_id g r
  Leaves-from agent_id g g' (returned (ok done), h) e l = l
  Leaves-from agent_id g g' (returned (err x), h) e l = l ∙ e
  Leaves-from agent_id g g' (running last_recv, h) e l = l ∙ e

  after-Leaves :
      (agent_id : String) (rest : ℕ → Gateway V → Status × Gateway V) (t : Turn × Gateway V)
      → ((last_recv : ℕ) (g : Gateway V) → Leaves agent_id g (rest last_recv g))
      → Leaves agent_id t.1 (after agent_id rest t)
  unfolding unregister_agent
  after-Leaves agent_id rest (go_on last_recv, g) l = l last_recv g
  after-Leaves agent_id rest (leave, g) l = unregister_agent_absent agent_id g
  after-Leaves agent_id rest (give_up e, g) l = refl

  -- Where the other connections leave an agent's registration alone, its own connection's loop
  -- keeps the registration while it runs, removes it when it returns without an error, and keeps
  -- it when it returns with one.
  pub agent_loop-Leaves :
      (agent_id : String) (tx : Sender) (arrivals : List (Arrival V)) (last_recv : ℕ)
      (g : Gateway V)
      → All (Spares agent_id) arrivals
      → Leaves agent_id g (agent_loop agent_id tx arrivals last_recv g)
  unfolding agent_loop
  agent_loop-Leaves agent_id tx [] last_recv g spare = refl
  agent_loop-Leaves agent_id tx ((others, event) ∷ arrivals) last_recv g (here, later) =
      let t = turn tx last_recv event (others g) in
      Leaves-from agent_id g t.1 (after agent_id (agent_loop agent_id tx arrivals) t)
        (ap (get agent_id) (turn_agents tx last_recv event (others g)) ∙ here g)
        (after-Leaves agent_id (agent_loop agent_id tx arrivals) t
          (λ l k. agent_loop-Leaves agent_id tx arrivals l k later))

  -- That the agent is not registered after a return without an error.
  abbrev pub Gone : String → Status × Gateway V → Type 0
  Gone agent_id (returned (ok done), h) = get agent_id h.device_registry.agents ≡ none
  Gone agent_id (returned (err e), h) = Unit
  Gone agent_id (running last_recv, h) = Unit

  after-Gone :
      (agent_id : String) (rest : ℕ → Gateway V → Status × Gateway V) (t : Turn × Gateway V)
      → ((last_recv : ℕ) (g : Gateway V) → Gone agent_id (rest last_recv g))
      → Gone agent_id (after agent_id rest t)
  unfolding unregister_agent
  after-Gone agent_id rest (go_on last_recv, g) l = l last_recv g
  after-Gone agent_id rest (leave, g) l = unregister_agent_absent agent_id g
  after-Gone agent_id rest (give_up e, g) l = tt

  -- When the loop of an agent's connection returns without an error, no agent is registered under
  -- its id, whatever the other connections did before, a new registration of the same id included.
  pub agent_loop-Gone :
      (agent_id : String) (tx : Sender) (arrivals : List (Arrival V)) (last_recv : ℕ)
      (g : Gateway V)
      → Gone agent_id (agent_loop agent_id tx arrivals last_recv g)
  unfolding agent_loop
  agent_loop-Gone agent_id tx [] last_recv g = tt
  agent_loop-Gone agent_id tx ((others, event) ∷ arrivals) last_recv g =
      after-Gone agent_id (agent_loop agent_id tx arrivals) (turn tx last_recv event (others g))
        (λ l k. agent_loop-Gone agent_id tx arrivals l k)
