-- ===== src/Server/Control/Playback.antt =====
-- A playback from its request to its agent's report: handle_control_play_audio of
-- speechmeshd/src/server.rs with the calls on the gateway that it makes.
use speechmesh.Common.{
  ℕ, ◌≡◌, refl, ◌∙◌, String, true, none, some, List, ◌∷◌, arith, length, if◌then◌else◌, ◌==◌,
  eq_refl, eq_iff, unwrap_or,
}
use speechmesh.Common.HashMap.{get, insert, remove, get-insert, get-remove}
use speechmesh.Common.Slices.{chunks}
use speechmesh.Common.Text.{trim}
use speechmesh.Transport.Agent.{
  AgentTaskState, finished, failed, AgentTaskStatusPayload, task_status, task_play_audio_start,
  task_play_audio_finish,
}
use speechmesh.Transport.Control.{ControlPlayAudioPayload, ControlPlayAudioAcceptedPayload}
use speechmesh.Device.Registry.{RegisteredAgent, Sender, TaskRoute}
use speechmesh.Device.Registry
use speechmesh.Bridges.Error.{unavailable, Result, ok, err}
use speechmesh.Gateway.State.{Gateway, TaskWaitResult, command, task_result}
use speechmesh.Gateway.Sessions.{resolve_task_waiter}
use speechmesh.Gateway.Tasks.{handle_agent_message, end_task, remove_task}
use speechmesh.Gateway.Tasks.Status.{reported}
use speechmesh.Server.Control.Frames.{meanwhile, with_chunks}
use speechmesh.Server.Control.Sending.{IsPlayable, sent, playback}
use speechmesh.Server.Control.{
  completed, received, conclude, wait, handle_control_play_audio, control_chunk_size,
}

-- The report of an agent that ends a playback, and what the one who waits for it is told.
pub data Verdict (status : AgentTaskStatusPayload) : AgentTaskState → TaskWaitResult → Type 0 where
  played : Verdict status finished (ok status)
  not_played :
      Verdict status failed (err (unavailable (unwrap_or status.message "play_audio task failed")))

abbrev pub with_verdict {ℓ} : {A : Type ℓ} → TaskWaitResult → A → Result A
with_verdict (ok status) a = ok a
with_verdict (err e) a = err e

module _ {V : Type 0} where
  resolved :
      (task_id : String) (r : TaskWaitResult) (waiter : Sender) (g : Gateway V)
      → get task_id g.task_waiters ≡ some waiter
      → g.is_open waiter ≡ true
      → resolve_task_waiter task_id r g ≡ record g {
        task_waiters = remove task_id g.task_waiters;
        log = task_result waiter r ∷ g.log;
      }
  unfolding resolve_task_waiter
  resolved task_id r waiter g at up = ground (arith, at, up)

  end_task-Verdict :
      (task_id : String) (status : AgentTaskStatusPayload) (state : AgentTaskState)
      (r : TaskWaitResult) (g : Gateway V)
      → Verdict status state r
      → end_task task_id status state g ≡ resolve_task_waiter task_id r (remove_task task_id g)
  end_task-Verdict task_id status state r g played = refl
  end_task-Verdict task_id status state r g not_played = refl

  -- What is left once the report has come.
  abbrev pub after_report : String → TaskWaitResult → Sender → Gateway V → Gateway V
  after_report task_id r waiter g = record (remove_task task_id g) {
    task_waiters = remove task_id g.task_waiters;
    log = task_result waiter r ∷ g.log;
  }

  report_resolves :
      (task_id : String) (status : AgentTaskStatusPayload) (r : TaskWaitResult) (waiter : Sender)
      (route : TaskRoute) (g : Gateway V)
      → Verdict status status.state r
      → get task_id g.device_registry.tasks ≡ some route
      → get task_id g.task_waiters ≡ some waiter
      → g.is_open waiter ≡ true
      → handle_agent_message (task_status task_id status) g ≡ after_report task_id r waiter g
  unfolding remove_task
  report_resolves task_id status r waiter route g verdict runs at up =
      reported task_id status g route runs
      ∙ end_task-Verdict task_id status status.state r g verdict
      ∙ resolved task_id r waiter (remove_task task_id g) at up

  wait_completed :
      (task_id : String) (r : TaskWaitResult) (waiter : Sender) (g : Gateway V)
      → wait task_id waiter (after_report task_id r waiter g) ≡ completed r
  unfolding wait received
  wait_completed task_id r waiter g = ground arith

  module _ (encode : List ℕ → String) (step : Gateway V → Gateway V) where
    conclude_completed :
        (accepted : ControlPlayAudioAcceptedPayload) (r : TaskWaitResult) (g : Gateway V)
        → conclude encode (meanwhile step) accepted (completed r) g ≡ (with_verdict r accepted, g)
    unfolding conclude
    conclude_completed accepted (ok status) g = refl
    conclude_completed accepted (err e) g = refl

  -- The gateway after a playback: its speaker was sent the start, the audio's chunks and the finish, in
  -- this order, the waiter was told the end, and no task or waiter is left of it.
  pub record Played (encode : List ℕ → String) (payload : ControlPlayAudioPayload)
      (task_id : String) (a : RegisteredAgent) (waiter : Sender) (audio : List ℕ)
      (r : TaskWaitResult) (g h : Gateway V) : Type 0 where
    pub log :
        h.log
        ≡ task_result waiter r
          ∷ command a.command_tx (task_play_audio_finish task_id)
          ∷ with_chunks encode a.command_tx task_id
              (chunks (control_chunk_size payload.chunk_size_bytes) audio)
              (command a.command_tx (task_play_audio_start task_id payload.format) ∷ g.log)
    pub tasks : (t : String) → get t h.device_registry.tasks ≡ get t g.device_registry.tasks
    pub waiters :
        (t : String) → get t h.task_waiters ≡ (if task_id == t then none else get t g.task_waiters)
    pub agents : h.device_registry.agents ≡ g.device_registry.agents
    pub sessions : h.sessions ≡ g.sessions

  after_report-Played :
      (encode : List ℕ → String) (payload : ControlPlayAudioPayload) (task_id : String)
      (a : RegisteredAgent) (waiter : Sender) (audio : List ℕ) (r : TaskWaitResult) (g : Gateway V)
      → get task_id g.device_registry.tasks ≡ none
      → Played encode payload task_id a waiter audio r g
          (after_report task_id r waiter (sent encode payload task_id a waiter audio g))
  unfolding remove_task Registry.remove_task
  after_report-Played encode payload task_id a waiter audio r g free = record {
    log = refl;
    tasks = λ t. ground (
      arith,
      free,
      eq_iff task_id t,
      get-remove task_id t
          (insert task_id (record { agent_id = a.agent_id }) g.device_registry.tasks),
      get-insert task_id t (record { agent_id = a.agent_id }) g.device_registry.tasks,
    );
    waiters = λ t. ground (
      arith,
      get-remove task_id t (insert task_id waiter g.task_waiters),
      get-insert task_id t waiter g.task_waiters,
    );
    agents = refl;
    sessions = refl;
  }

  -- In a valid gateway, let a request to play audio have an id that is not blank and is free,
  -- audio that is not empty, and a speaker that listens. If its waiter listens and, once the
  -- finish is sent, the agent reports the task finished or failed, with nothing else in between,
  -- the request is answered: with the task, the agent, the number of chunks and of bytes, or with
  -- the agent's failure. The agent was sent the start, the audio's chunks and the finish, in this
  -- order, and no task or waiter under the id is left; the other tasks and waiters, the agents and
  -- the sessions stay.
  pub handle_control_play_audio-Played :
      (encode : List ℕ → String) (decode : String → Result (List ℕ)) (sequence : ℕ)
      (waiter : Sender) (payload : ControlPlayAudioPayload) (g : Gateway V) (id : String)
      (a : RegisteredAgent) (audio : List ℕ) (status : AgentTaskStatusPayload) (r : TaskWaitResult)
      → IsPlayable decode payload g id a audio
      → g.is_open waiter ≡ true
      → Verdict status status.state r
      → (h : Gateway V) × (handle_control_play_audio encode
            (meanwhile (handle_agent_message (task_status (trim id) status)))
            decode
            sequence
            waiter
            payload
            g
          ≡ (
            with_verdict r (record {
              task_id = trim id;
              routed_agent_id = a.agent_id;
              chunk_count = length (chunks (control_chunk_size payload.chunk_size_bytes) audio);
              total_bytes = length audio;
            }),
            h,
          ))
        × Played encode payload (trim id) a waiter audio r g h
  handle_control_play_audio-Played encode decode sequence waiter payload g id a audio status r p
        hears verdict =
      let task_id = trim id in
      let step = handle_agent_message {V = V} (task_status task_id status) in
      let route : TaskRoute = record { agent_id = a.agent_id } in
      let g1 = sent encode payload task_id a waiter audio g in
      let h = after_report task_id r waiter g1 in
      let there : step g1 ≡ h =
        report_resolves task_id status r waiter route g1 verdict
          (rw (get-insert task_id task_id route g.device_registry.tasks, eq_refl task_id) refl)
          (rw (get-insert task_id task_id waiter g.task_waiters, eq_refl task_id) refl) hears in
      (
        h,
        playback encode decode sequence waiter payload g id a audio step p
            ∙ rw (there, wait_completed task_id r waiter g1) (conclude_completed encode step _ r h),
        after_report-Played encode payload task_id a waiter audio r g p.free,
      )
