-- ===== src/Gateway/Tasks/Status.antt =====
-- How a running task ends, and what its waiter is told.
use speechmesh.Common.{
  String, Bool, true, false, ◌≡◌, refl, Option, none, some, ◌∷◌, arith, if◌then◌else◌, ◌==◌, ◌⧺◌,
  Memᴰ, Bool-cases, Option-cases, inl, inr, ◌⊎◌, ap, sym, subst, ◌∙◌, unwrap_or,
}
use speechmesh.Common.HashMap.{get, get-remove}
use speechmesh.Transport.Agent.{
  AgentTaskState, started, finished, failed, AgentTaskStatusPayload, GatewayToAgentMessage,
  task_play_audio_chunk, task_play_audio_finish, task_status,
}
use speechmesh.Device.Registry.{RegistryInner, RegisteredAgent, Sender, TaskRoute}
use speechmesh.Device.Registry
use speechmesh.Bridges.Error.{unavailable, Result, ok, err}
use speechmesh.Gateway.State.{Gateway, TaskWaitResult, command, task_result}
use speechmesh.Gateway.Sessions.{resolve_task_waiter}
use speechmesh.Gateway.Sessions.Waiters.{
  resolve_task_waiter-Resolves, resolve_task_waiter_waiters, resolve_task_waiter_mem,
}
use speechmesh.Gateway.Tasks.{
  remove_task, route_play_audio_chunk, route_play_audio_finish, handle_agent_message,
  handle_task_status, lose_task, agent_gone, end_task,
}

module _ {V : Type 0} where
  -- `h` is `g` after the task's end with a result: the task and its waiter are gone, no others are
  -- touched, and the waiter has the result if it still listens.
  pub record Ends (task_id : String) (r : TaskWaitResult) (g h : Gateway V) : Type 0 where
    pub tasks :
        (t : String)
        → get t h.device_registry.tasks
          ≡ (if task_id == t then none else get t g.device_registry.tasks)
    pub waiters :
        (t : String) → get t h.task_waiters ≡ (if task_id == t then none else get t g.task_waiters)
    pub told :
        (tx : Sender)
        → get task_id g.task_waiters ≡ some tx
        → g.is_open tx ≡ true
        → Memᴰ (task_result tx r) h.log
    pub agents : h.device_registry.agents ≡ g.device_registry.agents
    pub sessions : h.sessions ≡ g.sessions
    pub is_open : h.is_open ≡ g.is_open

  abbrev up_of : Gateway V → Option RegisteredAgent → Bool
  up_of g none = false
  up_of g (some a) = g.is_open a.command_tx

  pub chunk_unknown :
      (task_id data_base64 : String) (g : Gateway V)
      → get task_id g.device_registry.tasks ≡ none
      → route_play_audio_chunk task_id data_base64 g
        ≡ (err (unavailable ("unknown play_audio task_id " ⧺ task_id)), g)
  unfolding route_play_audio_chunk Registry.task_agent_id
  chunk_unknown task_id data_base64 g e = ground (arith, e)

  pub end-Ends :
      (task_id : String) (r : TaskWaitResult) (g : Gateway V)
      → Ends task_id r g (resolve_task_waiter task_id r (remove_task task_id g))
  unfolding remove_task Registry.remove_task
  end-Ends task_id r g =
      let g' = remove_task task_id g in
      let l = resolve_task_waiter-Resolves task_id r g' in
      record {
        tasks = λ t.
            ap (λ (x : RegistryInner). get t x.tasks) l.device_registry
            ∙ get-remove task_id t g.device_registry.tasks;
        waiters = λ t.
            ap (get t) (resolve_task_waiter_waiters task_id r g')
            ∙ get-remove task_id t g.task_waiters;
        told = λ tx e up. resolve_task_waiter_mem task_id r g' tx e up;
        agents = ap (λ (x : RegistryInner). x.agents) l.device_registry;
        sessions = l.sessions;
        is_open = l.is_open;
      }

  -- What passing a frame on to a task's agent may lead to. It is delivered to the agent that the task
  -- runs on; or the task is unknown and nothing changes; or the agent is gone or unreachable, and
  -- the task ends, with the waiter told the error that the caller gets.
  abbrev pub Relays :
      GatewayToAgentMessage V → String → Gateway V → Result (Unit {0}) × Gateway V → Type 0
  Relays m task_id g (ok done, h) =
      (r : TaskRoute) × (a : RegisteredAgent) × (get task_id g.device_registry.tasks ≡ some r)
      × (get r.agent_id g.device_registry.agents ≡ some a)
      × (h ≡ record g { log = command a.command_tx m ∷ g.log })
  Relays m task_id g (err e, h) =
      ((get task_id g.device_registry.tasks ≡ none) × (h ≡ g))
      ⊎ ((r : TaskRoute) × (get task_id g.device_registry.tasks ≡ some r)
          × ((a : RegisteredAgent)
              → get r.agent_id g.device_registry.agents ≡ some a
              → g.is_open a.command_tx ≡ false)
          × Ends task_id (err e) g h)

  -- A call whose result is one of the code's four is such a passing on.
  relayed :
      (m : GatewayToAgentMessage V) (task_id lost gone : String) (g : Gateway V) (r : TaskRoute)
      (out : Result (Unit {0}) × Gateway V)
      → get task_id g.device_registry.tasks ≡ some r
      → (get r.agent_id g.device_registry.agents ≡ none → out ≡ lose_task task_id gone g)
      → ((a : RegisteredAgent)
          → get r.agent_id g.device_registry.agents ≡ some a
          → out ≡ (
              if g.is_open a.command_tx
              then (ok tt, record g { log = command a.command_tx m ∷ g.log })
              else lose_task task_id lost g))
      → Relays m task_id g out
  relayed m task_id lost gone g r out e absent present =
      elim (Option-cases (get r.agent_id g.device_registry.agents)) [
        | inl nobody ↦
            rw (absent nobody)
              (inr (r, e, λ a at. absurd (ground (arith, nobody, at)), end-Ends task_id _ g))
        | inr (a, at) ↦ elim (Bool-cases (g.is_open a.command_tx)) [
          | inl up ↦ rw (present a at) (rw up (r, a, e, at, refl))
          | inr down ↦ rw (present a at) (
              rw down (
                inr (
                  r,
                  e,
                  λ b bt. ap (λ (x : Option RegisteredAgent). up_of g x) (sym bt ∙ at) ∙ down,
                  end-Ends task_id _ g,
                )))
        ]
      ]

  -- A chunk of a playback is delivered to the agent that the task runs on and changes nothing
  -- else; or its task is unknown and nothing changes; or the agent is gone or does not listen, and
  -- then the task and its waiter are taken out, no others are, and the waiter is told the error
  -- that the caller gets.
  pub route_play_audio_chunk-Relays :
      (task_id data_base64 : String) (g : Gateway V)
      → Relays
          (task_play_audio_chunk task_id data_base64)
          task_id
          g
          (route_play_audio_chunk task_id data_base64 g)
  unfolding route_play_audio_chunk Registry.task_agent_id Registry.agent_command_tx
  route_play_audio_chunk-Relays task_id data_base64 g =
      let tasks = g.device_registry.tasks in
      elim (Option-cases (get task_id tasks)) [
        | inl e ↦ rw (chunk_unknown task_id data_base64 g e) (inl (e, refl))
        | inr (r, e) ↦
            relayed _ task_id ("failed to deliver play_audio chunk for task " ⧺ task_id)
              (agent_gone r.agent_id task_id) g r (route_play_audio_chunk task_id data_base64 g) e
              (λ nobody. ground (arith, e, nobody)) (λ a at. ground (arith, e, at))
      ]

  pub finish_unknown :
      (task_id : String) (g : Gateway V)
      → get task_id g.device_registry.tasks ≡ none
      → route_play_audio_finish task_id g
        ≡ (err (unavailable ("unknown play_audio task_id " ⧺ task_id)), g)
  unfolding route_play_audio_finish Registry.task_agent_id
  finish_unknown task_id g e = ground (arith, e)

  -- The finish of a playback is delivered to the agent that the task runs on and changes nothing
  -- else; or its task is unknown and nothing changes; or the agent is gone or does not listen, and
  -- then the task and its waiter are taken out, no others are, and the waiter is told the error
  -- that the caller gets.
  pub route_play_audio_finish-Relays :
      (task_id : String) (g : Gateway V)
      → Relays (task_play_audio_finish task_id) task_id g (route_play_audio_finish task_id g)
  unfolding route_play_audio_finish Registry.task_agent_id Registry.agent_command_tx
  route_play_audio_finish-Relays task_id g =
      elim (Option-cases (get task_id g.device_registry.tasks)) [
        | inl e ↦ rw (finish_unknown task_id g e) (inl (e, refl))
        | inr (r, e) ↦
            relayed _ task_id ("failed to deliver play_audio finish for task " ⧺ task_id)
              (agent_gone r.agent_id task_id) g r (route_play_audio_finish task_id g) e
              (λ nobody. ground (arith, e, nobody)) (λ a at. ground (arith, e, at))
      ]

  -- What the report of a task's agent leads to.
  abbrev pub Reported :
      String → AgentTaskStatusPayload → AgentTaskState → Gateway V → Gateway V → Type 0
  Reported task_id payload finished g h = Ends task_id (ok payload) g h
  Reported task_id payload failed g h =
      Ends task_id (err (unavailable (unwrap_or payload.message "play_audio task failed"))) g h
  Reported task_id payload started g h = h ≡ g

  end_task-Reported :
      (task_id : String) (payload : AgentTaskStatusPayload) (state : AgentTaskState) (g : Gateway V)
      → Reported task_id payload state g (end_task task_id payload state g)
  end_task-Reported task_id payload finished g = end-Ends task_id _ g
  end_task-Reported task_id payload failed g = end-Ends task_id _ g
  end_task-Reported task_id payload started g = refl

  pub reported :
      (task_id : String) (payload : AgentTaskStatusPayload) (g : Gateway V) (r : TaskRoute)
      → get task_id g.device_registry.tasks ≡ some r
      → handle_agent_message (task_status task_id payload) g
        ≡ end_task task_id payload payload.state g
  unfolding handle_agent_message handle_task_status Registry.task_agent_id
  reported task_id payload g r e = ground (arith, e)

  -- A status report of an unknown task changes nothing, nor does one that a known task has
  -- started. A report that a known task has finished or failed takes out that task and its waiter
  -- and no others, and the waiter, if it listens, is told the report or the failure.
  pub handle_agent_message-Reported :
      (task_id : String) (payload : AgentTaskStatusPayload) (g : Gateway V)
      → ((get task_id g.device_registry.tasks ≡ none)
          × (handle_agent_message (task_status task_id payload) g ≡ g))
        ⊎ ((r : TaskRoute) × (get task_id g.device_registry.tasks ≡ some r)
            × Reported task_id payload payload.state g
                (handle_agent_message (task_status task_id payload) g))
  unfolding handle_agent_message handle_task_status Registry.task_agent_id
  handle_agent_message-Reported task_id payload g =
      elim (Option-cases (get task_id g.device_registry.tasks)) [
        | inl e ↦ inl (e, ground (arith, e))
        | inr (r, e) ↦ inr (
          r,
          e,
          subst (Reported task_id payload payload.state g) (sym (reported task_id payload g r e))
              (end_task-Reported task_id payload payload.state g),
        )
      ]
