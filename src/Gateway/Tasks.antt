-- ===== src/Gateway/Tasks.antt =====
-- Playback tasks and the messages of agents in speechmeshd/src/agent.rs.
pub mod Routing
pub mod Status
use speechmesh.Common.{
  String, Bool, Option, none, some, List, map, unwrap_or, is_some, and_then, if◌then◌else◌, ◌⧺◌,
}
use speechmesh.Common.HashMap.{get, insert, remove}
use speechmesh.Common.Text.{trim, is_empty}
use speechmesh.Transport.Agent.{
  AgentTaskState, finished, failed, AgentTaskStatusPayload, AgentToGatewayMessage,
  GatewayToAgentMessage, task_play_audio_start, task_play_audio_chunk, task_play_audio_finish,
}
use speechmesh.Transport.Agent
use speechmesh.Device.Registry.{
  RegisteredAgent, Sender, AgentSnapshotFilter, TaskResult, registered, already_active,
}
use speechmesh.Device.Registry
use speechmesh.Bridges.Error.{unavailable, disconnected, Result, ok, err}
use speechmesh.Bridges.AsrEvents.{partial, final, error}
use speechmesh.Gateway.State.{
  PlayAudioRouteRequest, Gateway, command, send, with_registry, to_transport_snapshot,
}
use speechmesh.Gateway.Sessions.{
  resolve_task_waiter, mark_session_started, fail_session_start, route_event, route_session_ended,
}

abbrev unknown_task : String → Result (Unit {0})
unknown_task task_id = err (unavailable ("unknown play_audio task_id " ⧺ task_id))

abbrev pub agent_gone : String → String → String
agent_gone agent_id task_id = "agent " ⧺ agent_id ⧺ " is no longer available for task " ⧺ task_id

module _ {V : Type 0} where
  unfoldable pub subscribe_task_waiter : String → Sender → Gateway V → Gateway V
  subscribe_task_waiter task_id tx g = record g { task_waiters = insert task_id tx g.task_waiters }

  unfoldable pub remove_task_waiter : String → Gateway V → Gateway V
  remove_task_waiter task_id g = record g { task_waiters = remove task_id g.task_waiters }

  unfoldable pub select_agent : String → Gateway V → Option RegisteredAgent
  select_agent provider_id g = Registry.select_agent g.device_registry provider_id

  unfoldable pub select_speaker_agent :
      Option String → Option String → Gateway V → Option RegisteredAgent
  select_speaker_agent device_id agent_id g =
      Registry.select_speaker_agent g.device_registry device_id agent_id

  unfoldable pub register_task : String → String → Gateway V → Result (Unit {0}) × Gateway V
  register_task task_id agent_id g =
      elim (Registry.register_task g.device_registry task_id agent_id) [
        | registered inner ↦ (ok tt, with_registry g inner)
        | already_active message ↦ (err (unavailable message), g)
      ]

  unfoldable pub remove_task : String → Gateway V → Gateway V
  remove_task task_id g = with_registry g (Registry.remove_task g.device_registry task_id).0

  unfoldable pub task_agent_id : String → Gateway V → Option String
  task_agent_id task_id g = Registry.task_agent_id g.device_registry task_id

  -- The send of `route_play_audio_start`, and what is undone if it fails.
  abbrev start_on_agent :
      String → PlayAudioRouteRequest → RegisteredAgent → Gateway V → Result String × Gateway V
  start_on_agent task_id request agent g =
      if g.is_open agent.command_tx
      then (
        ok agent.agent_id,
        send agent.command_tx
            (command agent.command_tx (task_play_audio_start task_id request.format)) g,
      )
      else (
        err (disconnected ("failed to deliver play_audio start to agent " ⧺ agent.agent_name)),
        remove_task task_id g,
      )

  abbrev register_and_start :
      String → PlayAudioRouteRequest → RegisteredAgent → Gateway V → Result String × Gateway V
  register_and_start task_id request agent g =
      let (result, g') = register_task task_id agent.agent_id g in
      elim result [ ok done ↦ start_on_agent task_id request agent g' | err e ↦ (err e, g') ]

  unfoldable pub route_play_audio_start :
      PlayAudioRouteRequest → Gateway V → Result String × Gateway V
  unfolding register_task remove_task select_speaker_agent
  route_play_audio_start request g =
      let task_id = trim request.task_id in
      if is_empty task_id
      then (err (unavailable "task_id is required for play_audio routing"), g)
      else elim (select_speaker_agent request.device_id request.agent_id g) [
        | none ↦ (err (unavailable "no registered speaker agent matches the play_audio route"), g)
        | some agent ↦ register_and_start task_id request agent g
      ]

  -- The end of a task whose agent cannot be reached: the caller and the waiter get the same error.
  abbrev pub lose_task : String → String → Gateway V → Result (Unit {0}) × Gateway V
  lose_task task_id message g = (
    err (disconnected message),
    resolve_task_waiter task_id (err (disconnected message)) (remove_task task_id g),
  )

  abbrev pub deliver_to_task :
      String → String → GatewayToAgentMessage V → Sender → Gateway V → Result (Unit {0}) × Gateway V
  deliver_to_task task_id message m command_tx g =
      if g.is_open command_tx
      then (ok tt, send command_tx (command command_tx m) g)
      else lose_task task_id message g

  unfoldable pub route_play_audio_chunk :
      String → String → Gateway V → Result (Unit {0}) × Gateway V
  unfolding task_agent_id remove_task resolve_task_waiter
  route_play_audio_chunk task_id data_base64 g = elim (task_agent_id task_id g) [
    | none ↦ (unknown_task task_id, g)
    | some agent_id ↦ elim (Registry.agent_command_tx g.device_registry agent_id) [
      | none ↦ lose_task task_id (agent_gone agent_id task_id) g
      | some command_tx ↦
          deliver_to_task task_id ("failed to deliver play_audio chunk for task " ⧺ task_id)
            (task_play_audio_chunk task_id data_base64) command_tx g
    ]
  ]

  unfoldable pub route_play_audio_finish : String → Gateway V → Result (Unit {0}) × Gateway V
  unfolding task_agent_id remove_task resolve_task_waiter
  route_play_audio_finish task_id g = elim (task_agent_id task_id g) [
    | none ↦ (unknown_task task_id, g)
    | some agent_id ↦ elim (Registry.agent_command_tx g.device_registry agent_id) [
      | none ↦ lose_task task_id (agent_gone agent_id task_id) g
      | some command_tx ↦
          deliver_to_task task_id ("failed to deliver play_audio finish for task " ⧺ task_id)
            (task_play_audio_finish task_id) command_tx g
    ]
  ]

  -- `TaskStatus` of a task that has a route.
  abbrev pub end_task : String → AgentTaskStatusPayload → AgentTaskState → Gateway V → Gateway V
  end_task task_id payload finished g =
      resolve_task_waiter task_id (ok payload) (remove_task task_id g)
  end_task task_id payload failed g =
      resolve_task_waiter task_id
        (err (unavailable (unwrap_or payload.message "play_audio task failed")))
        (remove_task task_id g)
  end_task task_id payload AgentTaskState.started g = g

  unfoldable pub handle_task_status : String → AgentTaskStatusPayload → Gateway V → Gateway V
  unfolding task_agent_id remove_task resolve_task_waiter
  handle_task_status task_id payload g = elim (task_agent_id task_id g) [
    | none ↦ g
    | some agent_id ↦ end_task task_id payload payload.state g
  ]

  abbrev has_pending_start : String → Gateway V → Bool
  has_pending_start session_id g =
      is_some (and_then (get session_id g.sessions) (λ route. route.started_tx))

  unfoldable pub handle_agent_message : AgentToGatewayMessage → Gateway V → Gateway V
  unfolding handle_task_status
  handle_agent_message (Agent.hello payload) g = g
  handle_agent_message (Agent.session_started session_id provider_id) g =
      mark_session_started session_id g
  handle_agent_message (Agent.asr_partial session_id text) g =
      route_event session_id (partial text) g
  handle_agent_message (Agent.asr_final session_id transcript) g =
      route_event session_id (final transcript) g
  handle_agent_message (Agent.session_ended session_id reason) g =
      route_session_ended session_id reason g
  handle_agent_message (Agent.error (some session_id) message) g =
      if has_pending_start session_id g
      then fail_session_start session_id (unavailable message) g
      else route_event session_id (error message) g
  handle_agent_message (Agent.error none message) g = g
  handle_agent_message (Agent.task_status task_id payload) g = handle_task_status task_id payload g
  handle_agent_message Agent.pong g = g

  unfoldable pub snapshot : AgentSnapshotFilter → Gateway V → List Agent.AgentSnapshot
  snapshot filter g = map to_transport_snapshot (Registry.snapshot g.device_registry filter)
