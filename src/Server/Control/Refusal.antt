-- ===== src/Server/Control/Refusal.antt =====
-- A playback under the id of one that runs: handle_control_play_audio of
-- speechmeshd/src/server.rs.
use speechmesh.Common.{
  ℕ, ◌≡◌, refl, String, false, none, some, List, [], ◌∷◌, arith, if◌then◌else◌, ◌==◌, eq_iff,
  Option-cases, inl, inr, ◌<◌, length,
}
use speechmesh.Common.HashMap.{get, insert, get-insert, get-remove}
use speechmesh.Common.Text.{trim, is_empty}
use speechmesh.Common.Text.Trim.{trim-trim}
use speechmesh.Transport.Control.{ControlPlayAudioPayload}
use speechmesh.Device.Registry.{Sender, TaskRoute}
use speechmesh.Device.Registry
use speechmesh.Bridges.Error.{BridgeError, unavailable, Result, ok, err}
use speechmesh.Gateway.State.{Gateway, PlayAudioRouteRequest}
use speechmesh.Gateway.Tasks.{subscribe_task_waiter, remove_task_waiter, route_play_audio_start}
use speechmesh.Gateway.Tasks.Routing.{start_busy}
use speechmesh.Server.Control.{handle_control_play_audio, control_task_id}
use speechmesh.Server.Control.Frames.{meanwhile}

module _ {V : Type 0} where
  start_refused :
      (request : PlayAudioRouteRequest) (r : TaskRoute) (g : Gateway V)
      → is_empty (trim request.task_id) ≡ false
      → get (trim request.task_id) g.device_registry.tasks ≡ some r
      → (e : BridgeError) × (route_play_audio_start request g ≡ (err e, g))
  unfolding route_play_audio_start
  start_refused request r g named busy =
      elim (Option-cases
        (Registry.select_speaker_agent g.device_registry request.device_id request.agent_id)) [
          | inl nobody ↦ (
            unavailable "no registered speaker agent matches the play_audio route",
            ground (arith, named, nobody),
          )
          | inr (a, chosen) ↦ (_, start_busy request g a named chosen r busy)
        ]

  -- A request to play audio that is not empty, under an id which is not blank and is that of a
  -- running task, with nothing in between, fails; registry and log are as before, and afterwards
  -- nobody waits under that id: whoever waited for the running task is told nothing and is
  -- removed, while the others that wait stay.
  pub handle_control_play_audio-refused :
      (encode : List ℕ → String) (decode : String → Result (List ℕ)) (step : Gateway V → Gateway V)
      (sequence : ℕ) (waiter : Sender) (payload : ControlPlayAudioPayload) (g : Gateway V)
      (id : String) (r : TaskRoute) (audio : List ℕ)
      → payload.task_id ≡ some id
      → is_empty (trim id) ≡ false
      → decode payload.audio_base64 ≡ ok audio
      → 0 < length audio
      → get (trim id) g.device_registry.tasks ≡ some r
      → (e : BridgeError) × (h : Gateway V) × (handle_control_play_audio encode
            (meanwhile step)
            decode
            sequence
            waiter
            payload
            g
          ≡ (err e, h))
        × (h.device_registry ≡ g.device_registry)
        × (h.log ≡ g.log)
        × ((t : String)
            → get t h.task_waiters ≡ (if trim id == t then none else get t g.task_waiters))
  unfolding handle_control_play_audio control_task_id subscribe_task_waiter remove_task_waiter
  handle_control_play_audio-refused encode decode step sequence waiter payload g id r [] named solid
        decoded sounds busy =
      absurd (omega (arith, sounds))
  handle_control_play_audio-refused encode decode step sequence waiter payload g id r (b ∷ bytes)
        named solid decoded sounds busy =
      let id_eq : control_task_id sequence payload.task_id ≡ trim id =
        ground (arith, named, solid) in
      let request : PlayAudioRouteRequest = record {
        task_id = trim id;
        device_id = payload.device_id;
        output_target = payload.output_target;
        agent_id = payload.agent_id;
        format = payload.format;
      } in
      let (e, refused) =
        start_refused request r (subscribe_task_waiter (trim id) waiter g) (rw (trim-trim id) solid)
          (rw (trim-trim id) busy) in
      (
        e,
        remove_task_waiter (trim id) (subscribe_task_waiter (trim id) waiter g),
        rw (handle_control_play_audio, decoded, id_eq, refused) refl,
        refl,
        refl,
        λ t. ground (
          arith,
          eq_iff (trim id) t,
          get-remove (trim id) t (insert (trim id) waiter g.task_waiters),
          get-insert (trim id) t waiter g.task_waiters,
        ),
      )
