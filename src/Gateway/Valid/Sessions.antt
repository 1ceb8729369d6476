-- ===== src/Gateway/Valid/Sessions.antt =====
-- The gateway's invariant under registration and under the operations on sessions.
use speechmesh.Common.{
  String, ◌≡◌, Option, none, List, arith, inl, inr, Option-cases, Bool-cases, sym, subst, ap, ◌∙◌,
}
use speechmesh.Common.HashMap.{HashMap, remove_all, keys_where, insert, remove, get}
use speechmesh.Common.HashMap.Distinct.{
  IsDistinct, insert-IsDistinct, remove-IsDistinct, remove_all-IsDistinct,
}
use speechmesh.Core.{SessionId}
use speechmesh.Transport.Agent.{AgentHelloPayload}
use speechmesh.Device.Registry.{RegistryInner, Sender}
use speechmesh.Device.Registry
use speechmesh.Device.Registry.Valid
use speechmesh.Bridges.Error.{BridgeError}
use speechmesh.Bridges.AsrEvents.{BridgeAsrEvent}
use speechmesh.Gateway.State.{Gateway, SessionRoute}
use speechmesh.Gateway.Valid.{IsValid}
use speechmesh.Gateway.Sessions.{
  Impacted, runs_on, remove_orphaned_sessions, finish_sessions, finish_agent_removal,
  agent_of_hello, admit_agent, register_agent, unregister_agent, register_session,
  mark_session_started, fail_session_start, route_event, route_session_ended, is_authentic,
}
use speechmesh.Gateway.Sessions.Notify.{finish_sessions-Logs}
use speechmesh.Gateway.Sessions.Waiters.{finish_tasks-Resolves, finish_tasks_waiters}
use speechmesh.Gateway.Sessions.Removal.{take_sessions_map}
use speechmesh.Gateway.Sessions.Start.{acknowledged, idle}

pub orphaned-IsDistinct :
    (sessions : HashMap SessionRoute) (agent_id : String)
    → IsDistinct sessions
    → IsDistinct (remove_orphaned_sessions sessions agent_id).0
unfolding remove_orphaned_sessions
orphaned-IsDistinct sessions agent_id d =
    let keys = keys_where (runs_on agent_id) sessions in
    subst IsDistinct (sym (take_sessions_map keys sessions)) (remove_all-IsDistinct keys sessions d)

module _ {V : Type 0} where
  -- Validity by parts, each of which may be given as equal to a valid one.
  pub IsValid-of :
      (h : Gateway V) (inner : RegistryInner) (sessions : HashMap SessionRoute)
      (waiters : HashMap Sender)
      → h.device_registry ≡ inner
      → h.sessions ≡ sessions
      → h.task_waiters ≡ waiters
      → Valid.IsValid inner
      → IsDistinct sessions
      → IsDistinct waiters
      → IsValid h
  IsValid-of h inner sessions waiters a b c v s w = record {
    registry = subst Valid.IsValid (sym a) v;
    sessions_distinct = subst IsDistinct (sym b) s;
    waiters_distinct = subst IsDistinct (sym c) w;
  }

  finish_agent_removal-IsValid :
      (impacted : Impacted) (ids : List String) (g : Gateway V)
      → IsValid g
      → IsValid (finish_agent_removal impacted ids g)
  unfolding finish_agent_removal
  finish_agent_removal-IsValid impacted ids g v =
      let g' = finish_sessions impacted g in
      let l = finish_sessions-Logs impacted g in
      let r = finish_tasks-Resolves ids g' in
      IsValid-of _ g.device_registry g.sessions (remove_all ids g.task_waiters)
        (r.device_registry ∙ l.device_registry) (r.sessions ∙ l.sessions)
        (finish_tasks_waiters ids g' ∙ ap (remove_all ids) l.task_waiters) v.registry
        v.sessions_distinct (remove_all-IsDistinct ids g.task_waiters v.waiters_distinct)

  detached-IsValid :
      (agent_id : String) (removal : RegistryInner × List String) (g : Gateway V)
      → Valid.IsValid removal.0
      → IsValid g
      → IsValid (
          finish_agent_removal
            (remove_orphaned_sessions g.sessions agent_id).1
            removal.1
            (record g {
              sessions = (remove_orphaned_sessions g.sessions agent_id).0;
              device_registry = removal.0;
            }))
  detached-IsValid agent_id removal g r v = finish_agent_removal-IsValid _ removal.1 _ (record {
    registry = r;
    sessions_distinct = orphaned-IsDistinct g.sessions agent_id v.sessions_distinct;
    waiters_distinct = v.waiters_distinct;
  })

  pub unregister_agent-IsValid :
      (agent_id : String) (g : Gateway V) → IsValid g → IsValid (unregister_agent agent_id g)
  unfolding unregister_agent
  unregister_agent-IsValid agent_id g v =
      detached-IsValid agent_id (Registry.unregister_agent g.device_registry agent_id) g
        (Valid.unregister_agent-IsValid g.device_registry agent_id v.registry) v

  admit_agent-IsValid :
      (hello : AgentHelloPayload) (tx : Sender) (g : Gateway V)
      → IsValid g
      → IsValid (admit_agent hello tx g)
  unfolding admit_agent
  admit_agent-IsValid hello tx g v =
      let agent = agent_of_hello hello tx in
      detached-IsValid hello.agent_id (Registry.register_agent g.device_registry agent) g
        (Valid.register_agent-IsValid g.device_registry agent v.registry) v

  pub register_agent-IsValid :
      (hello : AgentHelloPayload) (tx : Sender) (g : Gateway V)
      → IsValid g
      → IsValid (register_agent hello tx g).1
  unfolding register_agent
  register_agent-IsValid hello tx g v =
      elim (Bool-cases (is_authentic g.expected_shared_secret hello)) [
        | inl right ↦ rw right (admit_agent-IsValid hello tx g v)
        | inr wrong ↦ rw wrong v
      ]

  pub register_session-IsValid :
      (agent_id : String) (id : SessionId) (event_tx started_tx : Sender) (g : Gateway V)
      → IsValid g
      → IsValid (register_session agent_id id event_tx started_tx g)
  unfolding register_session
  register_session-IsValid agent_id id event_tx started_tx g v = record {
    registry = v.registry;
    sessions_distinct = insert-IsDistinct id _ g.sessions v.sessions_distinct;
    waiters_distinct = v.waiters_distinct;
  }

  same_started :
      (id : SessionId) (g : Gateway V)
      → (mark_session_started id g).device_registry ≡ g.device_registry
  unfolding mark_session_started
  same_started id g = ground arith

  kept :
      (id : SessionId) (g : Gateway V) → (mark_session_started id g).task_waiters ≡ g.task_waiters
  unfolding mark_session_started
  kept id g = ground arith

  failed :
      (id : SessionId) (e : BridgeError) (g : Gateway V)
      → (let h = fail_session_start id e g in
          (h.device_registry ≡ g.device_registry)
          × (h.sessions ≡ remove id g.sessions)
          × (h.task_waiters ≡ g.task_waiters))
  unfolding fail_session_start
  failed id e g = (ground arith, ground arith, ground arith)

  ended :
      (id : SessionId) (reason : Option String) (g : Gateway V)
      → (let h = route_session_ended id reason g in
          (h.device_registry ≡ g.device_registry)
          × (h.sessions ≡ remove id g.sessions)
          × (h.task_waiters ≡ g.task_waiters))
  unfolding route_session_ended
  ended id reason g = (ground arith, ground arith, ground arith)

  routed :
      (id : SessionId) (e : BridgeAsrEvent) (g : Gateway V)
      → (let h = route_event id e g in
          (h.device_registry ≡ g.device_registry)
          × (h.sessions ≡ g.sessions)
          × (h.task_waiters ≡ g.task_waiters))
  unfolding route_event
  routed id e g = (ground arith, ground arith, ground arith)

  pub mark_session_started-IsValid :
      (id : SessionId) (g : Gateway V) → IsValid g → IsValid (mark_session_started id g)
  mark_session_started-IsValid id g v = elim (Option-cases (get id g.sessions)) [
    | inl e ↦ subst IsValid (sym (idle id g (λ r h. absurd (ground (arith, e, h))))) v
    | inr (r, e) ↦ elim (Option-cases r.started_tx) [
      | inl s ↦ subst IsValid (sym (idle id g (λ q h. ground (arith, e, h, s)))) v
      | inr (tx, s) ↦
          IsValid-of _ g.device_registry (insert id (record r { started_tx = none }) g.sessions)
            g.task_waiters (same_started id g) (acknowledged id g r tx e s) (kept id g) v.registry
            (insert-IsDistinct id _ g.sessions v.sessions_distinct) v.waiters_distinct
    ]
  ]

  pub fail_session_start-IsValid :
      (id : SessionId) (e : BridgeError) (g : Gateway V)
      → IsValid g
      → IsValid (fail_session_start id e g)
  fail_session_start-IsValid id e g v =
      let (a, b, c) = failed id e g in
      IsValid-of _ g.device_registry (remove id g.sessions) g.task_waiters a b c v.registry
        (remove-IsDistinct id g.sessions v.sessions_distinct) v.waiters_distinct

  pub route_session_ended-IsValid :
      (id : SessionId) (reason : Option String) (g : Gateway V)
      → IsValid g
      → IsValid (route_session_ended id reason g)
  route_session_ended-IsValid id reason g v =
      let (a, b, c) = ended id reason g in
      IsValid-of _ g.device_registry (remove id g.sessions) g.task_waiters a b c v.registry
        (remove-IsDistinct id g.sessions v.sessions_distinct) v.waiters_distinct

  pub route_event-IsValid :
      (id : SessionId) (e : BridgeAsrEvent) (g : Gateway V)
      → IsValid g
      → IsValid (route_event id e g)
  route_event-IsValid id e g v =
      let (a, b, c) = routed id e g in
      IsValid-of _ g.device_registry g.sessions g.task_waiters a b c v.registry v.sessions_distinct
        v.waiters_distinct
