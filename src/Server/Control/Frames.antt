-- ===== src/Server/Control/Frames.antt =====
-- The frames of a playback that reach its agent, in handle_control_play_audio of
-- speechmeshd/src/server.rs.
use speechmesh.Common.{
  ℕ, suc, ◌+◌, ◌≡◌, refl, ◌∙◌, String, true, some, List, [], ◌∷◌, arith, length,
}
use speechmesh.Common.HashMap.{get}
use speechmesh.Common.Slices.{chunks}
use speechmesh.Transport.Agent.{task_play_audio_chunk, task_play_audio_finish}
use speechmesh.Device.Registry.{RegisteredAgent, Sender, TaskRoute}
use speechmesh.Device.Registry
use speechmesh.Bridges.Error.{ok}
use speechmesh.Gateway.State.{Gateway, Delivery, command}
use speechmesh.Gateway.Tasks.{route_play_audio_chunk, route_play_audio_finish}
use speechmesh.Server.Control.{Moment, waiting, send_chunks, conclude, play, wait}

module _ {V : Type 0} where
  -- Nothing runs in between, but for one step while the reply is awaited.
  abbrev pub meanwhile : (Gateway V → Gateway V) → Moment → Gateway V → Gateway V
  meanwhile step waiting g = step g
  meanwhile step _ g = g

  -- The chunks on top of a log.
  abbrev pub with_chunks :
      (List ℕ → String) → Sender → String → List (List ℕ) → List (Delivery V) → List (Delivery V)
  with_chunks encode tx task_id [] log = log
  with_chunks encode tx task_id (c ∷ cs) log =
      with_chunks encode tx task_id cs (command tx (task_play_audio_chunk task_id (encode c)) ∷ log)

  module _ (task_id : String) (r : TaskRoute) (a : RegisteredAgent) where
    -- The task runs on an agent that listens.
    abbrev pub Runs : Gateway V → Type 0
    Runs g =
        (get task_id g.device_registry.tasks ≡ some r)
        × (get r.agent_id g.device_registry.agents ≡ some a)
        × (g.is_open a.command_tx ≡ true)

    chunk_delivered :
        (data_base64 : String) (g : Gateway V)
        → Runs g
        → route_play_audio_chunk task_id data_base64 g ≡ (
          ok tt,
          record g {
            log = command a.command_tx (task_play_audio_chunk task_id data_base64) ∷ g.log;
          },
        )
    unfolding route_play_audio_chunk Registry.task_agent_id Registry.agent_command_tx
    chunk_delivered data_base64 g (at, of, up) = ground (arith, at, of, up)

    finish_delivered :
        (g : Gateway V)
        → Runs g
        → route_play_audio_finish task_id g ≡ (
          ok tt,
          record g { log = command a.command_tx (task_play_audio_finish task_id) ∷ g.log },
        )
    unfolding route_play_audio_finish Registry.task_agent_id Registry.agent_command_tx
    finish_delivered g (at, of, up) = ground (arith, at, of, up)

    module _ (encode : List ℕ → String) (step : Gateway V → Gateway V) where
      send_chunks_delivered :
          (index : ℕ) (parts : List (List ℕ)) (g : Gateway V)
          → Runs g
          → send_chunks encode (meanwhile step) task_id index parts g ≡ (
            ok (index + length parts),
            record g { log = with_chunks encode a.command_tx task_id parts g.log },
          )
      unfolding send_chunks
      send_chunks_delivered index [] g run =
          let e : index ≡ index + 0 = omega arith in λ i. (ok (e i), g)
      send_chunks_delivered index (c ∷ cs) g run =
          let g' = record g {
            log = command a.command_tx (task_play_audio_chunk task_id (encode c)) ∷ g.log;
          } in
          let e : index + 1 + length cs ≡ index + suc (length cs) = omega arith in
          rw (chunk_delivered (encode c) g run) (
            send_chunks_delivered (index + 1) cs g' run ∙ λ i.
            (ok (e i), record g { log = with_chunks encode a.command_tx task_id (c ∷ cs) g.log }))

      -- What the agent reports, on top of the gateway to which the finish was sent.
      pub play_delivered :
          (waiter : Sender) (bytes : List ℕ) (size : ℕ) (g : Gateway V)
          → Runs g
          → play encode (meanwhile step) task_id waiter bytes size a.agent_id g ≡ (
              let g' = step (record g {
                log =
                    command a.command_tx (task_play_audio_finish task_id)
                    ∷ with_chunks encode a.command_tx task_id (chunks size bytes) g.log;
              }) in
              conclude encode
                (meanwhile step)
                (record {
                  task_id = task_id;
                  routed_agent_id = a.agent_id;
                  chunk_count = length (chunks size bytes);
                  total_bytes = length bytes;
                })
                (wait task_id waiter g')
                g')
      unfolding play
      play_delivered waiter bytes size g run =
          let parts = chunks size bytes in
          rw
            (
              send_chunks_delivered 0 parts g run,
              finish_delivered
                  (record g { log = with_chunks encode a.command_tx task_id parts g.log }) run,
            )
            (let none_before : 0 + length parts ≡ length parts = omega arith in rw none_before refl)
