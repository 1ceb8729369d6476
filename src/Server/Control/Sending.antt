-- ===== src/Server/Control/Sending.antt =====
-- A playback up to the wait for its end: handle_control_play_audio of speechmeshd/src/server.rs with
-- the calls on the gateway that it makes.
use speechmesh.Common.{
  ℕ, ◌<◌, ◌≡◌, refl, String, true, false, none, some, List, [], ◌∷◌, arith, length, eq_refl,
}
use speechmesh.Common.HashMap.{get, insert, get-insert}
use speechmesh.Common.Slices.{chunks}
use speechmesh.Common.Text.{trim, is_empty}
use speechmesh.Common.Text.Trim.{trim-trim}
use speechmesh.Transport.Agent.{task_play_audio_start, task_play_audio_finish}
use speechmesh.Transport.Control.{ControlPlayAudioPayload}
use speechmesh.Device.Registry.{RegisteredAgent, Sender, TaskRoute}
use speechmesh.Device.Registry
use speechmesh.Bridges.Error.{Result, ok}
use speechmesh.Gateway.State.{PlayAudioRouteRequest, Gateway, command}
use speechmesh.Gateway.Tasks.{subscribe_task_waiter, route_play_audio_start}
use speechmesh.Gateway.Valid.{IsValid}
use speechmesh.Device.Registry.Select.{select_speaker_agent-Selects}
use speechmesh.Server.Control.Frames.{meanwhile, with_chunks, Runs, play_delivered}
use speechmesh.Server.Control.{
  conclude, wait, handle_control_play_audio, control_chunk_size, control_task_id,
}

module _ {V : Type 0} where
  -- The registry with the task.
  abbrev pub with_task : String → RegisteredAgent → Gateway V → Gateway V
  with_task task_id a g = record g {
    device_registry = record g.device_registry {
      tasks = insert task_id (record { agent_id = a.agent_id }) g.device_registry.tasks;
    };
  }

  started_on :
      (request : PlayAudioRouteRequest) (g : Gateway V) (a : RegisteredAgent)
      → trim request.task_id ≡ request.task_id
      → is_empty request.task_id ≡ false
      → Registry.select_speaker_agent g.device_registry request.device_id request.agent_id ≡ some a
      → get request.task_id g.device_registry.tasks ≡ none
      → g.is_open a.command_tx ≡ true
      → route_play_audio_start request g ≡ (
        ok a.agent_id,
        record (with_task request.task_id a g) {
          log = command a.command_tx (task_play_audio_start request.task_id request.format) ∷ g.log;
        },
      )
  unfolding route_play_audio_start Registry.register_task
  started_on request g a trimmed named chosen free up =
      ground (arith, trimmed, named, chosen, free, up)

  -- A request that can be played: it has an id that is not blank and is free, audio, and a speaker that listens.
  pub record IsPlayable (decode : String → Result (List ℕ)) (payload : ControlPlayAudioPayload)
      (g : Gateway V) (id : String) (a : RegisteredAgent) (audio : List ℕ) : Type 0 where
    pub valid : IsValid g
    pub named : payload.task_id ≡ some id
    pub not_blank : is_empty (trim id) ≡ false
    pub decoded : decode payload.audio_base64 ≡ ok audio
    pub not_silent : 0 < length audio
    pub chosen :
        Registry.select_speaker_agent g.device_registry payload.device_id payload.agent_id ≡ some a
    pub free : get (trim id) g.device_registry.tasks ≡ none
    pub listens : g.is_open a.command_tx ≡ true

  -- The gateway to which all frames were sent.
  abbrev pub sent :
      (List ℕ → String)
      → ControlPlayAudioPayload
      → String
      → RegisteredAgent
      → Sender
      → List ℕ
      → Gateway V
      → Gateway V
  sent encode payload task_id a waiter audio g = record (with_task task_id a g) {
    task_waiters = insert task_id waiter g.task_waiters;
    log =
        command a.command_tx (task_play_audio_finish task_id)
        ∷ with_chunks encode a.command_tx task_id
            (chunks (control_chunk_size payload.chunk_size_bytes) audio)
            (command a.command_tx (task_play_audio_start task_id payload.format) ∷ g.log);
  }

  module _ (encode : List ℕ → String) (decode : String → Result (List ℕ)) where
    pub playback :
        (sequence : ℕ) (waiter : Sender) (payload : ControlPlayAudioPayload) (g : Gateway V)
        (id : String) (a : RegisteredAgent) (audio : List ℕ) (step : Gateway V → Gateway V)
        → IsPlayable decode payload g id a audio
        → handle_control_play_audio encode (meanwhile step) decode sequence waiter payload g ≡ (
            let g' = step (sent encode payload (trim id) a waiter audio g) in
            conclude encode
              (meanwhile step)
              (record {
                task_id = trim id;
                routed_agent_id = a.agent_id;
                chunk_count = length (chunks (control_chunk_size payload.chunk_size_bytes) audio);
                total_bytes = length audio;
              })
              (wait (trim id) waiter g')
              g')
    unfolding handle_control_play_audio control_task_id subscribe_task_waiter
    playback sequence waiter payload g id a [] step p = absurd (omega (arith, p.not_silent))
    playback sequence waiter payload g id a (b ∷ bytes) step p =
        let task_id = trim id in
        let route : TaskRoute = record { agent_id = a.agent_id } in
        let id_eq : control_task_id sequence payload.task_id ≡ task_id =
          ground (arith, p.named, p.not_blank) in
        let (at, speaks) = rw p.chosen at (
          select_speaker_agent-Selects g.device_registry payload.device_id payload.agent_id
            p.valid.registry) in
        let request : PlayAudioRouteRequest = record {
          task_id = task_id;
          device_id = payload.device_id;
          output_target = payload.output_target;
          agent_id = payload.agent_id;
          format = payload.format;
        } in
        let g1 = subscribe_task_waiter task_id waiter g in
        let g2 = record (with_task task_id a g1) {
          log = command a.command_tx (task_play_audio_start task_id payload.format) ∷ g.log;
        } in
        let runs : Runs task_id route a g2 = (
          rw (get-insert task_id task_id route g.device_registry.tasks, eq_refl task_id) refl,
          at,
          p.listens,
        ) in
        rw
          (
            handle_control_play_audio,
            p.decoded,
            id_eq,
            started_on request g1 a (trim-trim id) p.not_blank p.chosen p.free p.listens,
          )
          (play_delivered task_id route a encode step waiter (b ∷ bytes)
            (control_chunk_size payload.chunk_size_bytes) g2 runs)
