-- ===== src/Player/Broadcast.antt =====
-- From a controller's request to a device's player: handle_control_play_audio of
-- speechmeshd/src/server.rs, the gateway's routing in speechmeshd/src/agent.rs, and the device's
-- agent in speechmeshd/src/bin/speechmesh_agent/runtime.rs.
use speechmesh.Common.{
  ℕ, ◌<◌, ◌≡◌, refl, ap, ◌∙◌, ◌⧺◌, String, true, Option, none, some, List, [], ◌∷◌, length, arith,
}
use speechmesh.Common.Fallible
use speechmesh.Common.HashMap.{get}
use speechmesh.Common.Slices.{chunks, concat, concat-chunks}
use speechmesh.Common.Text.{trim, show}
use speechmesh.Transport.Agent.{
  started, finished, AgentTaskStatusPayload, task_status, task_play_audio_start,
  task_play_audio_finish,
}
use speechmesh.Transport.Control.{ControlPlayAudioPayload}
use speechmesh.Device.Registry.{RegisteredAgent, Sender}
use speechmesh.Bridges.Error.{Result, ok}
use speechmesh.Gateway.State.{Gateway, Delivery, command, task_result}
use speechmesh.Gateway.Log.{pushed}
use speechmesh.Gateway.Tasks.{handle_agent_message}
use speechmesh.Server.Control.{handle_control_play_audio, control_chunk_size}
use speechmesh.Server.Control.Frames.{meanwhile, with_chunks}
use speechmesh.Server.Control.Sending.{IsPlayable}
use speechmesh.Server.Control.Playback.{played, handle_control_play_audio-Played}
use speechmesh.Player.{TaskTracker, Machine, status_of, handle_gateway_message, handle_all}
use speechmesh.Player.Life.{IsWell, IsWithout, chunk_frames, on, handle_all_plays}

with_chunks-pushed :
    {V : Type 0} (encode : List ℕ → String) (tx : Sender) (task_id : String) (parts : List (List ℕ))
    (log : List (Delivery V))
    → with_chunks encode tx task_id parts log ≡ pushed tx (chunk_frames encode task_id parts) log
with_chunks-pushed encode tx task_id [] log = refl
with_chunks-pushed encode tx task_id (part ∷ parts) log =
    with_chunks-pushed encode tx task_id parts _

control_chunk_size-pos : (size : Option ℕ) → 0 < control_chunk_size size
unfolding control_chunk_size
control_chunk_size-pos none = omega arith
control_chunk_size-pos (some size) = ground arith

-- The report of a device that has played audio in some parts.
abbrev pub report_of : List (List ℕ) → AgentTaskStatusPayload
report_of parts = record {
  state = finished;
  message = some (
      "play_audio finished (chunks="
      ⧺ show (length parts)
      ⧺ ", bytes="
      ⧺ show (length (concat parts))
      ⧺ ")");
}

-- From the controller to the loudspeaker: in a valid gateway, let a request to play audio have an
-- id that is not blank and is free on both sides, audio that is not empty, a speaker and a waiter
-- that listen. Let the device's player start, take what it is given and end well, and let decoding
-- undo encoding. If the gateway gets the device's final report while it waits, and nothing else in
-- between, the request is accepted with the numbers of chunks and bytes. The device's channel is
-- given frames from which, after the start's report, its player has been given exactly the audio;
-- on the finish the device sends that final report and has forgotten the task, while its other
-- tasks stay.
pub handle_control_play_audio_heard :
    (V : Type 0) (encode : List ℕ → String) (decode : String → Result (List ℕ))
    (decode_chunk : String → Fallible.Result (List ℕ)) (sequence : ℕ) (waiter : Sender)
    (payload : ControlPlayAudioPayload) (g : Gateway V) (id : String) (a : RegisteredAgent)
    (audio : List ℕ) (m : Machine) (t : TaskTracker)
    → IsPlayable decode payload g id a audio
    → g.is_open waiter ≡ true
    → ((bytes : List ℕ) → decode_chunk (encode bytes) ≡ Fallible.ok bytes)
    → IsWell m payload.format
    → get (trim id) t.play_audio_tasks ≡ none
    → (let parts = chunks (control_chunk_size payload.chunk_size_bytes) audio in
        (h : Gateway V) × (t1 : TaskTracker) × (t' : TaskTracker) × (handle_control_play_audio
            encode
            (meanwhile (handle_agent_message (task_status (trim id) (report_of parts))))
            decode
            sequence
            waiter
            payload
            g
          ≡ (
            ok (record {
              task_id = trim id;
              routed_agent_id = a.agent_id;
              chunk_count = length parts;
              total_bytes = length audio;
            }),
            h,
          ))
        × (h.log
            ≡ task_result waiter (ok (report_of parts))
              ∷ command a.command_tx (task_play_audio_finish (trim id))
              ∷ pushed a.command_tx
                  (task_play_audio_start (trim id) payload.format
                    ∷ chunk_frames encode (trim id) parts)
                  g.log)
        × (handle_all {V = V} decode_chunk
              (on m (
                task_play_audio_start (trim id) payload.format
                ∷ chunk_frames encode (trim id) parts))
              t
            ≡ (status_of (trim id) started "play_audio started with local default output" ∷ [], t1))
        × (get (trim id) t1.play_audio_tasks
            ≡ some
                (record { stdin = audio; chunk_count = length parts; byte_count = length audio }))
        × (handle_gateway_message {V = V} decode_chunk m (task_play_audio_finish (trim id)) t1
            ≡ (task_status (trim id) (report_of parts) ∷ [], t'))
        × IsWithout (trim id) t t')
handle_control_play_audio_heard V encode decode decode_chunk sequence waiter payload g id a audio m
      t p hears reads well free =
    let size = control_chunk_size payload.chunk_size_bytes in
    let parts = chunks size audio in
    let (h, answer, after) =
      handle_control_play_audio-Played encode decode sequence waiter payload g id a audio
        (report_of parts) (ok (report_of parts)) p hears played in
    let (t1, t', plays, at, finishes, left) =
      handle_all_plays V encode decode_chunk m payload.format well reads (trim id) parts t free in
    let whole : concat parts ≡ audio =
      concat-chunks size audio (control_chunk_size-pos payload.chunk_size_bytes) in
    (
      h,
      t1,
      t',
      answer,
      after.log
          ∙ ap
              (λ (log : List (Delivery V)).
                task_result waiter (ok (report_of parts))
                ∷ command a.command_tx (task_play_audio_finish (trim id))
                ∷ log)
              (with_chunks-pushed encode a.command_tx (trim id) parts _),
      plays,
      at ∙ λ i.
          some
            (record { stdin = whole i; chunk_count = length parts; byte_count = length (whole i) }),
      finishes,
      left,
    )
