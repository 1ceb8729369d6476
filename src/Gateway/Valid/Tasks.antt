-- ===== src/Gateway/Valid/Tasks.antt =====
-- The gateway's invariant under playback and under the messages of agents.
use speechmesh.Common.{
  String, Bool, true, false, ◌≡◌, none, some, List, arith, inl, inr, Option-cases, Bool-cases, sym,
  subst, if◌then◌else◌, ◌⧺◌,
}
use speechmesh.Common.HashMap.{insert, remove, get}
use speechmesh.Common.HashMap.Distinct.{insert-IsDistinct, remove-IsDistinct}
use speechmesh.Common.Text.{trim, is_empty}
use speechmesh.Bridges.Error.{Result}
use speechmesh.Gateway.Tasks.Routing.{start_free, start_busy}
use speechmesh.Gateway.Tasks.Status.{chunk_unknown, finish_unknown, reported}
use speechmesh.Transport.Agent.{
  GatewayToAgentMessage, task_play_audio_chunk, task_play_audio_finish, task_status,
  AgentToGatewayMessage, AgentTaskState, AgentTaskStatusPayload,
}
use speechmesh.Transport.Agent
use speechmesh.Device.Registry.{RegistryInner, RegisteredAgent, TaskRoute, Sender, registered}
use speechmesh.Device.Registry
use speechmesh.Device.Registry.Valid
use speechmesh.Device.Registry.Select.{select_speaker_agent-Selects}
use speechmesh.Gateway.State.{
  Gateway, PlayAudioRouteRequest, TaskWaitResult, Delivery, with_registry, send,
}
use speechmesh.Gateway.Log.{send-Logs}
use speechmesh.Gateway.Valid.{IsValid}
use speechmesh.Gateway.Valid.Sessions.{
  IsValid-of, mark_session_started-IsValid, fail_session_start-IsValid, route_event-IsValid,
  route_session_ended-IsValid,
}
use speechmesh.Gateway.Sessions.{resolve_task_waiter}
use speechmesh.Gateway.Sessions.Waiters.{resolve_task_waiter-Resolves, resolve_task_waiter_waiters}
use speechmesh.Gateway.Tasks.{
  remove_task, subscribe_task_waiter, remove_task_waiter, route_play_audio_start,
  route_play_audio_chunk, route_play_audio_finish, handle_agent_message, handle_task_status,
  end_task, lose_task, deliver_to_task, agent_gone,
}

free_registers :
    (s : RegistryInner) (task_id agent_id : String)
    → get task_id s.tasks ≡ none
    → Registry.register_task s task_id agent_id
      ≡ registered (record s { tasks = insert task_id (record { agent_id = agent_id }) s.tasks })
unfolding Registry.register_task
free_registers s task_id agent_id free = ground (arith, free)

module _ {V : Type 0} where
  -- A send keeps the gateway valid.
  send-IsValid : (tx : Sender) (d : Delivery V) (g : Gateway V) → IsValid g → IsValid (send tx d g)
  send-IsValid tx d g v =
      let l = send-Logs tx d g in
      IsValid-of _ g.device_registry g.sessions g.task_waiters l.device_registry l.sessions
        l.task_waiters v.registry v.sessions_distinct v.waiters_distinct

  resolved-IsValid :
      (task_id : String) (r : TaskWaitResult) (g : Gateway V)
      → IsValid g
      → IsValid (resolve_task_waiter task_id r g)
  resolved-IsValid task_id r g v =
      let l = resolve_task_waiter-Resolves task_id r g in
      IsValid-of _ g.device_registry g.sessions (remove task_id g.task_waiters) l.device_registry
        l.sessions (resolve_task_waiter_waiters task_id r g) v.registry v.sessions_distinct
        (remove-IsDistinct task_id g.task_waiters v.waiters_distinct)

  with_registry-IsValid :
      (g : Gateway V) (inner : RegistryInner)
      → Valid.IsValid inner
      → IsValid g
      → IsValid (with_registry g inner)
  with_registry-IsValid g inner r v = record {
    registry = r;
    sessions_distinct = v.sessions_distinct;
    waiters_distinct = v.waiters_distinct;
  }

  pub remove_task-IsValid :
      (task_id : String) (g : Gateway V) → IsValid g → IsValid (remove_task task_id g)
  unfolding remove_task
  remove_task-IsValid task_id g v =
      with_registry-IsValid g _ (Valid.remove_task-IsValid g.device_registry task_id v.registry) v

  -- The end of a task, with any result.
  pub ended-IsValid :
      (task_id : String) (r : TaskWaitResult) (g : Gateway V)
      → IsValid g
      → IsValid (resolve_task_waiter task_id r (remove_task task_id g))
  ended-IsValid task_id r g v =
      resolved-IsValid task_id r (remove_task task_id g) (remove_task-IsValid task_id g v)

  pub subscribe_task_waiter-IsValid :
      (task_id : String) (tx : Sender) (g : Gateway V)
      → IsValid g
      → IsValid (subscribe_task_waiter task_id tx g)
  unfolding subscribe_task_waiter
  subscribe_task_waiter-IsValid task_id tx g v = record {
    registry = v.registry;
    sessions_distinct = v.sessions_distinct;
    waiters_distinct = insert-IsDistinct task_id tx g.task_waiters v.waiters_distinct;
  }

  pub remove_task_waiter-IsValid :
      (task_id : String) (g : Gateway V) → IsValid g → IsValid (remove_task_waiter task_id g)
  unfolding remove_task_waiter
  remove_task_waiter-IsValid task_id g v = record {
    registry = v.registry;
    sessions_distinct = v.sessions_distinct;
    waiters_distinct = remove-IsDistinct task_id g.task_waiters v.waiters_distinct;
  }

  logged : {g : Gateway V} {l : List (Delivery V)} → IsValid g → IsValid (record g { log = l })
  logged v = record {
    registry = v.registry;
    sessions_distinct = v.sessions_distinct;
    waiters_distinct = v.waiters_distinct;
  }

  unreported :
      (task_id : String) (payload : AgentTaskStatusPayload) (g : Gateway V)
      → get task_id g.device_registry.tasks ≡ none
      → handle_agent_message (task_status task_id payload) g ≡ g
  unfolding handle_agent_message handle_task_status Registry.task_agent_id
  unreported task_id payload g e = ground (arith, e)

  -- A call whose result is one of the four that passing a frame on may have keeps it valid.
  relayed-IsValid :
      (m : GatewayToAgentMessage V) (task_id lost gone : String) (g : Gateway V) (r : TaskRoute)
      (out : Result (Unit {0}) × Gateway V)
      → IsValid g
      → (get r.agent_id g.device_registry.agents ≡ none → out ≡ lose_task task_id gone g)
      → ((a : RegisteredAgent)
          → get r.agent_id g.device_registry.agents ≡ some a
          → out ≡ deliver_to_task task_id lost m a.command_tx g)
      → IsValid out.1
  relayed-IsValid m task_id lost gone g r out v absent present =
      elim (Option-cases (get r.agent_id g.device_registry.agents)) [
        | inl nobody ↦ rw (absent nobody) (ended-IsValid task_id _ g v)
        | inr (a, at) ↦ elim (Bool-cases (g.is_open a.command_tx)) [
          | inl up ↦ rw (present a at) (rw up (logged v))
          | inr down ↦ rw (present a at) (rw down (ended-IsValid task_id _ g v))
        ]
      ]

  pub route_play_audio_chunk-IsValid :
      (task_id data_base64 : String) (g : Gateway V)
      → IsValid g
      → IsValid (route_play_audio_chunk task_id data_base64 g).1
  unfolding route_play_audio_chunk Registry.task_agent_id Registry.agent_command_tx
  route_play_audio_chunk-IsValid task_id data_base64 g v =
      elim (Option-cases (get task_id g.device_registry.tasks)) [
        | inl e ↦ rw (chunk_unknown task_id data_base64 g e) v
        | inr (r, e) ↦
            relayed-IsValid (task_play_audio_chunk task_id data_base64) task_id
              ("failed to deliver play_audio chunk for task " ⧺ task_id)
              (agent_gone r.agent_id task_id) g r (route_play_audio_chunk task_id data_base64 g) v
              (λ nobody. ground (arith, e, nobody)) (λ a at. ground (arith, e, at))
      ]

  pub route_play_audio_finish-IsValid :
      (task_id : String) (g : Gateway V) → IsValid g → IsValid (route_play_audio_finish task_id g).1
  unfolding route_play_audio_finish Registry.task_agent_id Registry.agent_command_tx
  route_play_audio_finish-IsValid task_id g v =
      elim (Option-cases (get task_id g.device_registry.tasks)) [
        | inl e ↦ rw (finish_unknown task_id g e) v
        | inr (r, e) ↦
            relayed-IsValid (task_play_audio_finish task_id) task_id
              ("failed to deliver play_audio finish for task " ⧺ task_id)
              (agent_gone r.agent_id task_id) g r (route_play_audio_finish task_id g) v
              (λ nobody. ground (arith, e, nobody)) (λ a at. ground (arith, e, at))
      ]

  end_task-IsValid :
      (task_id : String) (payload : AgentTaskStatusPayload) (state : AgentTaskState) (g : Gateway V)
      → IsValid g
      → IsValid (end_task task_id payload state g)
  end_task-IsValid task_id payload AgentTaskState.started g v = v
  end_task-IsValid task_id payload AgentTaskState.finished g v = ended-IsValid task_id _ g v
  end_task-IsValid task_id payload AgentTaskState.failed g v = ended-IsValid task_id _ g v

  one_of-IsValid :
      (b : Bool) (x y : Gateway V) → IsValid x → IsValid y → IsValid (if b then x else y)
  one_of-IsValid true x y p q = p
  one_of-IsValid false x y p q = q

  pub handle_agent_message-IsValid :
      (m : AgentToGatewayMessage) (g : Gateway V) → IsValid g → IsValid (handle_agent_message m g)
  unfolding handle_agent_message
  handle_agent_message-IsValid (Agent.hello payload) g v = v
  handle_agent_message-IsValid (Agent.session_started id provider_id) g v =
      mark_session_started-IsValid id g v
  handle_agent_message-IsValid (Agent.asr_partial id text) g v = route_event-IsValid id _ g v
  handle_agent_message-IsValid (Agent.asr_final id transcript) g v = route_event-IsValid id _ g v
  handle_agent_message-IsValid (Agent.session_ended id reason) g v =
      route_session_ended-IsValid id reason g v
  handle_agent_message-IsValid (Agent.error (some id) text) g v =
      one_of-IsValid _ _ _ (fail_session_start-IsValid id _ g v) (route_event-IsValid id _ g v)
  handle_agent_message-IsValid (Agent.error none text) g v = v
  handle_agent_message-IsValid (Agent.task_status task_id payload) g v =
      elim (Option-cases (get task_id g.device_registry.tasks)) [
        | inl e ↦ subst IsValid (sym (unreported task_id payload g e)) v
        | inr (r, e) ↦
            subst IsValid (sym (reported task_id payload g r e))
              (end_task-IsValid task_id payload payload.state g v)
      ]
  handle_agent_message-IsValid Agent.pong g v = v

  started_free :
      (request : PlayAudioRouteRequest) (g : Gateway V)
      → IsValid g
      → (a : RegisteredAgent) → (named : is_empty (trim request.task_id) ≡ false)
      → (chosen : Registry.select_speaker_agent g.device_registry request.device_id request.agent_id
          ≡ some a)
      → get (trim request.task_id) g.device_registry.tasks ≡ none
      → get a.agent_id g.device_registry.agents ≡ some a
      → IsValid (route_play_audio_start request g).1
  unfolding remove_task Registry.remove_task
  started_free request g v a named chosen free at =
      let task_id = trim request.task_id in
      let inner = record g.device_registry {
        tasks = insert task_id (record { agent_id = a.agent_id }) g.device_registry.tasks;
      } in
      let r =
        Valid.register_task-IsValid g.device_registry inner task_id a.agent_id v.registry
          (ground (arith, at)) (free_registers g.device_registry task_id a.agent_id free) in
      let w = with_registry-IsValid g inner r v in
      elim (Bool-cases (g.is_open a.command_tx)) [
        | inl up ↦ rw (start_free request g a named chosen free) (rw up (logged w))
        | inr down ↦
            rw (start_free request g a named chosen free)
              (rw down (remove_task-IsValid task_id (with_registry g inner) w))
      ]

  -- A start that is registered keeps the registry valid, and so does taking the task out again.
  pub route_play_audio_start-IsValid :
      (request : PlayAudioRouteRequest) (g : Gateway V)
      → IsValid g
      → IsValid (route_play_audio_start request g).1
  unfolding route_play_audio_start
  route_play_audio_start-IsValid request g v =
      let task_id = trim request.task_id in
      let select =
        Registry.select_speaker_agent g.device_registry request.device_id request.agent_id in
      elim (Bool-cases (is_empty task_id)) [
        | inl blank ↦ rw blank v
        | inr named ↦ elim (Option-cases select) [
          | inl nobody ↦ rw (named, nobody, route_play_audio_start) v
          | inr (a, chosen) ↦ elim (Option-cases (get task_id g.device_registry.tasks)) [
            | inl free ↦
                let at =
                  (rw chosen at (
                    select_speaker_agent-Selects g.device_registry request.device_id
                      request.agent_id v.registry)).0 in
                started_free request g v a named chosen free at
            | inr (r, busy) ↦ rw (start_busy request g a named chosen r busy) v
          ]
        ]
      ]
