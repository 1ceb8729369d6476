-- ===== src/Gateway/Tasks/Routing.antt =====
-- How the frames of a playback reach an agent, and what is left when they do not.
use speechmesh.Common.{
  String, false, ◌≡◌, refl, none, some, List, ◌∷◌, arith, if◌then◌else◌, ◌==◌, ◌⧺◌, Bool-cases,
  Option-cases, inl, inr, eq_iff,
}
use speechmesh.Common.HashMap.{HashMap, get, insert, remove, get-insert, get-remove}
use speechmesh.Common.Text.{trim, is_empty}
use speechmesh.Transport.Agent.{task_play_audio_start}
use speechmesh.Device.Registry.{
  RegistryInner, RegisteredAgent, Sender, TaskRoute, registered, already_active,
}
use speechmesh.Device.Registry
use speechmesh.Device.Registry.Select.{IsSpeaker, select_speaker_agent-Selects}
use speechmesh.Bridges.Error.{unavailable, disconnected, Result, ok, err}
use speechmesh.Gateway.State.{PlayAudioRouteRequest, Gateway, Delivery, command}
use speechmesh.Gateway.Valid.{IsValid}
use speechmesh.Gateway.Tasks.{route_play_audio_start}

module _ {V : Type 0} where
  -- `h` is `g` but for its tasks and its log.
  pub record SameButTasks (g h : Gateway V) : Type 0 where
    pub agents : h.device_registry.agents ≡ g.device_registry.agents
    pub secret : h.expected_shared_secret ≡ g.expected_shared_secret
    pub sessions : h.sessions ≡ g.sessions
    pub task_waiters : h.task_waiters ≡ g.task_waiters
    pub is_open : h.is_open ≡ g.is_open

  -- What a start may lead to. A playback that starts runs on a registered speaker that the request
  -- admits; its id was free and is not blank, and the speaker is sent the start. One that fails
  -- leaves the tasks as they were, and nothing is sent.
  abbrev pub Starts : PlayAudioRouteRequest → Gateway V → Result String × Gateway V → Type 0
  Starts request g (ok agent_id, h) =
      let task_id = trim request.task_id in
      (a : RegisteredAgent) × (get agent_id g.device_registry.agents ≡ some a)
      × IsSpeaker request.device_id request.agent_id a
      × (is_empty task_id ≡ false)
      × (get task_id g.device_registry.tasks ≡ none)
      × SameButTasks g h
      × ((t : String)
          → get t h.device_registry.tasks ≡ (
              if task_id == t
              then some (record { agent_id = agent_id })
              else get t g.device_registry.tasks))
      × (h.log ≡ command a.command_tx (task_play_audio_start task_id request.format) ∷ g.log)
  Starts request g (err e, h) =
      SameButTasks g h
      × ((t : String) → get t h.device_registry.tasks ≡ get t g.device_registry.tasks)
      × (h.log ≡ g.log)

  -- Another list of tasks, or another log.
  pub SameButTasks-with :
      (g : Gateway V) (tasks : HashMap TaskRoute) (log : List (Delivery V))
      → SameButTasks g
          (record g { device_registry = record g.device_registry { tasks = tasks }; log = log })
  SameButTasks-with g tasks log = record {
    agents = refl;
    secret = refl;
    sessions = refl;
    task_waiters = refl;
    is_open = refl;
  }

  module _ (request : PlayAudioRouteRequest) (g : Gateway V) (a : RegisteredAgent)
      (named : is_empty (trim request.task_id) ≡ false)
      (chosen : Registry.select_speaker_agent g.device_registry request.device_id request.agent_id
        ≡ some a) where
    abbrev pub with_task : Gateway V
    with_task = record g {
      device_registry = record g.device_registry {
        tasks =
            insert (trim request.task_id) (record { agent_id = a.agent_id })
              g.device_registry.tasks;
      };
    }

    pub start_free :
        get (trim request.task_id) g.device_registry.tasks ≡ none
        → route_play_audio_start request g ≡ (
            if g.is_open a.command_tx
            then (
              ok a.agent_id,
              record with_task {
                log =
                    command a.command_tx
                      (task_play_audio_start (trim request.task_id) request.format)
                    ∷ g.log;
              },
            )
            else (
              err (disconnected ("failed to deliver play_audio start to agent " ⧺ a.agent_name)),
              record with_task {
                device_registry = record g.device_registry {
                  tasks = remove (trim request.task_id) (
                      insert
                        (trim request.task_id)
                        (record { agent_id = a.agent_id })
                        g.device_registry.tasks);
                };
              },
            ))
    unfolding route_play_audio_start Registry.register_task Registry.remove_task
    start_free free = ground (arith, named, chosen, free)

    -- Taking out the task that was put in leaves the tasks as they were.
    restored :
        get (trim request.task_id) g.device_registry.tasks ≡ none
        → (t : String)
        → get t (remove (trim request.task_id) with_task.device_registry.tasks)
          ≡ get t g.device_registry.tasks
    restored free t =
        let task_id = trim request.task_id in
        ground (
          arith,
          free,
          eq_iff task_id t,
          get-remove task_id t with_task.device_registry.tasks,
          get-insert task_id t (record { agent_id = a.agent_id }) g.device_registry.tasks,
        )

    pub start_busy :
        (r : TaskRoute)
        → get (trim request.task_id) g.device_registry.tasks ≡ some r
        → route_play_audio_start request g
          ≡ (err (unavailable ("task_id " ⧺ trim request.task_id ⧺ " is already active")), g)
    unfolding route_play_audio_start Registry.register_task
    start_busy r busy = ground (arith, named, chosen, busy)

    start_free-Starts :
        get a.agent_id g.device_registry.agents ≡ some a
        → IsSpeaker request.device_id request.agent_id a
        → get (trim request.task_id) g.device_registry.tasks ≡ none
        → Starts request g (route_play_audio_start request g)
    start_free-Starts at speaks free = elim (Bool-cases (g.is_open a.command_tx)) [
      | inl up ↦ rw (start_free free) (
          rw up (
            a,
            at,
            speaks,
            named,
            free,
            SameButTasks-with g _ _,
            λ t. get-insert (trim request.task_id) t _ g.device_registry.tasks,
            refl,
          ))
      | inr down ↦
          rw (start_free free) (rw down (SameButTasks-with g _ _, λ t. restored free t, refl))
    ]

  -- In a valid gateway, a playback that starts runs on a registered speaker that the request
  -- admits, under the trimmed id, which is not blank and was free; only that task is added, and
  -- the speaker is sent the start. A start that fails leaves every task as it was and sends
  -- nothing. Agents, sessions and waiters stay in both cases.
  pub route_play_audio_start-Starts :
      (request : PlayAudioRouteRequest) (g : Gateway V)
      → IsValid g
      → Starts request g (route_play_audio_start request g)
  unfolding route_play_audio_start
  route_play_audio_start-Starts request g v =
      let task_id = trim request.task_id in
      let select =
        Registry.select_speaker_agent g.device_registry request.device_id request.agent_id in
      let same = (SameButTasks-with g g.device_registry.tasks g.log) in
      elim (Bool-cases (is_empty task_id)) [
        | inl blank ↦ rw blank (same, λ t. refl, refl)
        | inr named ↦ elim (Option-cases select) [
          | inl nobody ↦ rw (named, nobody, route_play_audio_start) (same, λ t. refl, refl)
          | inr (a, chosen) ↦
              let (at, speaks) = rw chosen at (
                select_speaker_agent-Selects g.device_registry request.device_id request.agent_id
                  v.registry) in
              elim (Option-cases (get task_id g.device_registry.tasks)) [
                | inl free ↦ start_free-Starts request g a named chosen at speaks free
                | inr (r, busy) ↦
                    rw (start_busy request g a named chosen r busy) (same, λ t. refl, refl)
              ]
        ]
      ]
