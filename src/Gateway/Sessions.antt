-- ===== src/Gateway/Sessions.antt =====
-- Sessions and registration in speechmeshd/src/agent.rs: who an event goes to, and what becomes of
-- the sessions and tasks of an agent that comes or goes.
pub mod Notify
pub mod Waiters
pub mod Removal
pub mod Start
use speechmesh.Common.{
  String, Bool, true, Option, none, some, List, [], ◌∷◌, map_option, unwrap_or, is_text,
  if◌then◌else◌, ◌==◌, ◌⧺◌,
}
use speechmesh.Common.HashMap.{HashMap, get, insert, remove, keys_where}
use speechmesh.Core.{SessionId}
use speechmesh.Transport.Agent.{AgentHelloPayload}
use speechmesh.Device.Registry.{RegistryInner, RegisteredAgent, Sender}
use speechmesh.Device.Registry
use speechmesh.Bridges.Error.{BridgeError, unavailable, disconnected, Result, ok, err}
use speechmesh.Bridges.AsrEvents.{BridgeAsrEvent, ended, error}
use speechmesh.Gateway.State.{
  SessionRoute, TaskWaitResult, Gateway, event, started, task_result, send, to_device_agent_kind,
  to_device_identity, debug_session,
}

abbrev pub Impacted : Type 0
Impacted = List (SessionId × SessionRoute)

abbrev pub runs_on : String → SessionRoute → Bool
runs_on agent_id route = route.agent_id == agent_id

abbrev pub push : SessionId → Option SessionRoute → Impacted → Impacted
push session_id none impacted = impacted
push session_id (some route) impacted = (session_id, route) ∷ impacted

-- The second loop of `remove_orphaned_sessions`.
unfoldable pub take_sessions :
    List SessionId → HashMap SessionRoute → HashMap SessionRoute × Impacted
take_sessions [] sessions = (sessions, [])
take_sessions (id ∷ ids) sessions =
    let (rest, impacted) = take_sessions ids (remove id sessions) in
    (rest, push id (get id sessions) impacted)

unfoldable pub remove_orphaned_sessions :
    HashMap SessionRoute → String → HashMap SessionRoute × Impacted
unfolding take_sessions
remove_orphaned_sessions sessions agent_id =
    take_sessions (keys_where (runs_on agent_id) sessions) sessions

-- The registration record that a hello describes.
abbrev pub agent_of_hello : AgentHelloPayload → Sender → RegisteredAgent
agent_of_hello hello command_tx = record {
  agent_id = hello.agent_id;
  agent_name = hello.agent_name;
  provider_id = hello.provider_id;
  capabilities = hello.capabilities;
  capability_domains = hello.capability_domains;
  agent_kind = to_device_agent_kind hello.agent_kind;
  client_version = hello.client_version;
  update_status = hello.update_status;
  device = map_option to_device_identity hello.device;
  device_info = none;
  command_tx = command_tx;
}

-- Whether a hello passes the shared secret, where one is expected.
abbrev pub is_authentic : Option String → AgentHelloPayload → Bool
is_authentic none hello = true
is_authentic (some expected) hello = is_text hello.shared_secret expected

module _ {V : Type 0} where
  unfoldable pub resolve_task_waiter : String → TaskWaitResult → Gateway V → Gateway V
  resolve_task_waiter task_id result g =
      let g' = record g { task_waiters = remove task_id g.task_waiters } in
      elim (get task_id g.task_waiters) [
        | none ↦ g'
        | some waiter ↦ send waiter (task_result waiter result) g'
      ]

  -- The two events that end a running session.
  abbrev pub end_events : Sender → String → String → Gateway V → Gateway V
  end_events event_tx message reason g =
      send event_tx (event event_tx (ended (some reason)))
        (send event_tx (event event_tx (error message)) g)

  -- One turn of the first loop of `finish_agent_removal`.
  unfoldable pub finish_session : SessionId → SessionRoute → Gateway V → Gateway V
  finish_session session_id route g = elim route.started_tx [
    | some started_tx ↦
        send started_tx
          (started started_tx (
            err (
              disconnected
                ("agent disconnected before session started: " ⧺ debug_session session_id))))
          g
    | none ↦
        end_events route.event_tx ("agent disconnected for session " ⧺ debug_session session_id)
          "agent_disconnected" g
  ]

  unfoldable pub finish_sessions : Impacted → Gateway V → Gateway V
  finish_sessions [] g = g
  finish_sessions ((session_id, route) ∷ rest) g =
      finish_sessions rest (finish_session session_id route g)

  unfoldable pub finish_tasks : List String → Gateway V → Gateway V
  finish_tasks [] g = g
  finish_tasks (task_id ∷ rest) g = finish_tasks rest (
      resolve_task_waiter task_id
        (err (disconnected ("agent disconnected before task completion: " ⧺ task_id))) g)

  unfoldable pub finish_agent_removal : Impacted → List String → Gateway V → Gateway V
  unfolding finish_sessions finish_tasks
  finish_agent_removal orphaned_sessions orphaned_tasks g =
      finish_tasks orphaned_tasks (finish_sessions orphaned_sessions g)

  -- `register_agent` after the test of the secret.
  unfoldable pub admit_agent : AgentHelloPayload → Sender → Gateway V → Gateway V
  unfolding finish_agent_removal remove_orphaned_sessions
  admit_agent hello command_tx g =
      let (sessions, impacted) = remove_orphaned_sessions g.sessions hello.agent_id in
      let (inner, orphaned) =
        Registry.register_agent g.device_registry (agent_of_hello hello command_tx) in
      finish_agent_removal impacted orphaned
        (record g { sessions = sessions; device_registry = inner })

  unfoldable pub register_agent :
      AgentHelloPayload → Sender → Gateway V → Result (Unit {0}) × Gateway V
  unfolding admit_agent
  register_agent hello command_tx g =
      if is_authentic g.expected_shared_secret hello
      then (ok tt, admit_agent hello command_tx g)
      else (err (unavailable "agent authentication failed"), g)

  unfoldable pub unregister_agent : String → Gateway V → Gateway V
  unfolding finish_agent_removal remove_orphaned_sessions
  unregister_agent agent_id g =
      let (sessions, impacted) = remove_orphaned_sessions g.sessions agent_id in
      let (inner, orphaned) = Registry.unregister_agent g.device_registry agent_id in
      finish_agent_removal impacted orphaned
        (record g { sessions = sessions; device_registry = inner })

  unfoldable pub register_session : String → SessionId → Sender → Sender → Gateway V → Gateway V
  register_session agent_id session_id event_tx started_tx g = record g {
    sessions =
        insert session_id
          (record { agent_id = agent_id; event_tx = event_tx; started_tx = some started_tx })
          g.sessions;
  }

  unfoldable pub remove_session : SessionId → Gateway V → Gateway V × Option SessionRoute
  remove_session session_id g =
      (record g { sessions = remove session_id g.sessions }, get session_id g.sessions)

  -- `started_tx.take()` in place, and the acknowledgement.
  abbrev take_started : SessionId → SessionRoute → Gateway V → Gateway V
  take_started session_id route g = elim route.started_tx [
    | none ↦ g
    | some started_tx ↦
        send started_tx (started started_tx (ok tt)) (record g {
          sessions = insert session_id (record route { started_tx = none }) g.sessions;
        })
  ]

  unfoldable pub mark_session_started : SessionId → Gateway V → Gateway V
  mark_session_started session_id g = elim (get session_id g.sessions) [
    | none ↦ g
    | some route ↦ take_started session_id route g
  ]

  abbrev fail_route : SessionRoute → BridgeError → Gateway V → Gateway V
  fail_route route e g = elim route.started_tx [
    | some started_tx ↦ send started_tx (started started_tx (err e)) g
    | none ↦
        end_events route.event_tx "session failed before start acknowledgement" "start_failed" g
  ]

  unfoldable pub fail_session_start : SessionId → BridgeError → Gateway V → Gateway V
  unfolding remove_session
  fail_session_start session_id e g =
      let (g', removed) = remove_session session_id g in
      elim removed [ none ↦ g' | some route ↦ fail_route route e g' ]

  unfoldable pub route_event : SessionId → BridgeAsrEvent → Gateway V → Gateway V
  route_event session_id e g = elim (get session_id g.sessions) [
    | none ↦ g
    | some route ↦ send route.event_tx (event route.event_tx e) g
  ]

  abbrev end_route : SessionRoute → Option String → Gateway V → Gateway V
  end_route route reason g = elim route.started_tx [
    | some started_tx ↦
        send started_tx
          (started started_tx
            (err (disconnected (unwrap_or reason "session ended before start ack"))))
          g
    | none ↦ send route.event_tx (event route.event_tx (ended reason)) g
  ]

  unfoldable pub route_session_ended : SessionId → Option String → Gateway V → Gateway V
  unfolding remove_session
  route_session_ended session_id reason g =
      let (g', removed) = remove_session session_id g in
      elim removed [ none ↦ g' | some route ↦ end_route route reason g' ]
