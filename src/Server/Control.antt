-- ===== src/Server/Control.antt =====
-- The control endpoint of speechmeshd/src/server.rs, over the gateway's registry. `encode` and
-- `decode` are those of the base64 crate. Between two calls on the gateway other connections run:
-- `others` says what they do to it.
pub mod Frames
pub mod Refusal
pub mod Examples
pub mod Sending
pub mod Playback
use speechmesh.Common.{
  ℕ, zero, suc, ◌+◌, ◌*◌, String, ◌⧺◌, Bool, Option, none, some, List, [], ◌∷◌, if◌then◌else◌,
  is_some, beq, length, ltb,
}
use speechmesh.Common.HashMap.{get}
use speechmesh.Common.Slices.{chunks}
use speechmesh.Common.Text.{trim, is_empty, show}
use speechmesh.Device.Registry.{Sender}
use speechmesh.Bridges.Error.{
  BridgeError, unavailable, disconnected, protocol, io, Result, ok, err, display,
}
use speechmesh.Transport.Control.{
  ControlPlayAudioPayload, ControlAgentStatusPayload, ControlRequest,
  ControlPlayAudioAcceptedPayload, ControlResponse, play_audio_accepted, error, pong,
}
use speechmesh.Transport.Control
use speechmesh.Gateway.State.{Gateway, Delivery, TaskWaitResult, task_result}
use speechmesh.Gateway.Tasks.{
  subscribe_task_waiter, remove_task_waiter, route_play_audio_start, route_play_audio_chunk,
  route_play_audio_finish, snapshot,
}

-- Where in a playback the others run.
pub data Moment : Type 0 where
  before_subscription before_start after_refusal before_finish waiting after_timeout : Moment
  before_chunk : ℕ → Moment

-- The last of a list: `pop`.
unfoldable pub pop {ℓ} : {A : Type ℓ} → List A → Option A
pop [] = none
pop (x ∷ []) = some x
pop (x ∷ y ∷ ys) = pop (y ∷ ys)

-- `as_deref().map(str::trim).filter(…)`, or the next number.
unfoldable pub control_task_id : ℕ → Option String → String
control_task_id sequence none = "play-audio-" ⧺ show sequence
control_task_id sequence (some id) =
    if is_empty (trim id) then "play-audio-" ⧺ show sequence else trim id

unfoldable pub control_chunk_size : Option ℕ → ℕ
control_chunk_size none = 16 * 1024
control_chunk_size (some size) = if ltb 0 size then size else 16 * 1024

-- How the wait ends: with a result, with the sending half gone, or with neither in time.
pub data Waited : Type 0 where
  completed : TaskWaitResult → Waited
  dropped timed_out : Waited

-- A frame of the connection, or the end of its reading with an error. A text has the request that it
-- is read as, or what is wrong with it, the number that the counter gives for it, and a new channel.
pub data ControlFrame : Type 0 where
  text : ControlRequest → ℕ → Sender → ControlFrame
  invalid unreadable : String → ControlFrame
  ping_frame pong_frame binary_frame close_frame : ControlFrame

module _ {V : Type 0} where
  -- What a waiter's channel has received.
  unfoldable pub received : Sender → List (Delivery V) → Option TaskWaitResult
  received tx [] = none
  received tx (task_result to result ∷ log) =
      let rest = received tx log in if beq to tx then some result else rest
  received tx (d ∷ log) = received tx log

  unfoldable pub wait : String → Sender → Gateway V → Waited
  unfolding received
  wait task_id waiter g = elim (received waiter g.log) [
    | some result ↦ completed result
    | none ↦ elim (get task_id g.task_waiters) [
      | some tx ↦ if beq tx waiter then timed_out else dropped
      | none ↦ dropped
    ]
  ]

-- The `?` of a call on the gateway.
abbrev pub or_return :
    {A B V : Type 0}
    → Result A × Gateway V
    → (A → Gateway V → Result B × Gateway V)
    → Result B × Gateway V
or_return (ok a, g) next = next a g
or_return (err e, g) next = (err e, g)

module _ {V : Type 0} (encode : List ℕ → String) (others : Moment → Gateway V → Gateway V) where
  -- The loop over the chunks; `index` counts those before.
  unfoldable pub send_chunks : String → ℕ → List (List ℕ) → Gateway V → Result ℕ × Gateway V
  send_chunks task_id index [] g = (ok index, g)
  send_chunks task_id index (chunk ∷ rest) g =
      or_return (route_play_audio_chunk task_id (encode chunk) (others (before_chunk index) g))
        λ (done : Unit {0}) (g' : Gateway V). send_chunks task_id (index + 1) rest g'

  -- The last `match`.
  unfoldable pub conclude :
      ControlPlayAudioAcceptedPayload
      → Waited
      → Gateway V
      → Result ControlPlayAudioAcceptedPayload × Gateway V
  conclude accepted (completed (ok status)) g = (ok accepted, g)
  conclude accepted (completed (err e)) g = (err e, g)
  conclude accepted dropped g =
      (err (disconnected ("task waiter dropped before playback completed: " ⧺ accepted.task_id)), g)
  conclude accepted timed_out g = (
    err (unavailable ("timed out waiting for playback completion: " ⧺ accepted.task_id)),
    remove_task_waiter accepted.task_id (others after_timeout g),
  )

  -- What follows a start that was routed.
  unfoldable pub play :
      String
      → Sender
      → List ℕ
      → ℕ
      → String
      → Gateway V
      → Result ControlPlayAudioAcceptedPayload × Gateway V
  unfolding send_chunks conclude wait
  play task_id waiter bytes chunk_size routed_agent_id g =
      or_return (send_chunks task_id 0 (chunks chunk_size bytes) g)
        λ (chunk_count : ℕ) (g1 : Gateway V).
          or_return (route_play_audio_finish task_id (others before_finish g1))
            λ (done : Unit {0}) (g2 : Gateway V).
              let g3 = others waiting g2 in
              conclude
                (record {
                  task_id = task_id;
                  routed_agent_id = routed_agent_id;
                  chunk_count = chunk_count;
                  total_bytes = length bytes;
                })
                (wait task_id waiter g3) g3

  -- The `match` on the routing of the start.
  abbrev pub after_start :
      String
      → Sender
      → List ℕ
      → ℕ
      → Result String × Gateway V
      → Result ControlPlayAudioAcceptedPayload × Gateway V
  after_start task_id waiter bytes chunk_size (ok routed_agent_id, g) =
      play task_id waiter bytes chunk_size routed_agent_id g
  after_start task_id waiter bytes chunk_size (err e, g) =
      (err e, remove_task_waiter task_id (others after_refusal g))

  module _ (decode : String → Result (List ℕ)) where
    unfoldable pub handle_control_play_audio :
        ℕ
        → Sender
        → ControlPlayAudioPayload
        → Gateway V
        → Result ControlPlayAudioAcceptedPayload × Gateway V
    unfolding control_task_id control_chunk_size play
    handle_control_play_audio sequence waiter payload g =
        let task_id = control_task_id sequence payload.task_id in
        elim (decode payload.audio_base64) [
          | err e ↦ (err e, g)
          | ok [] ↦ (err (protocol "play_audio payload is empty"), g)
          | ok (b ∷ bytes) ↦
              let g1 = subscribe_task_waiter task_id waiter (others before_subscription g) in
              after_start task_id waiter (b ∷ bytes) (control_chunk_size payload.chunk_size_bytes) (
                route_play_audio_start
                  (record {
                    task_id = task_id;
                    device_id = payload.device_id;
                    output_target = payload.output_target;
                    agent_id = payload.agent_id;
                    format = payload.format;
                  })
                  (others before_start g1))
        ]

    -- The answer to a request: what the handlers send, or the error that the loop sends for them.
    abbrev respond :
        Result ControlPlayAudioAcceptedPayload × Gateway V → ControlResponse × Gateway V
    respond (ok accepted, g) = (play_audio_accepted accepted, g)
    respond (err e, g) = (error (display e), g)

    unfoldable pub handle_control_request :
        ℕ → Sender → ControlRequest → Gateway V → ControlResponse × Gateway V
    unfolding handle_control_play_audio display pop
    handle_control_request sequence waiter (Control.play_audio payload) g =
        respond (handle_control_play_audio sequence waiter payload g)
    handle_control_request sequence waiter Control.ControlRequest.devices_list g = (
      Control.ControlResponse.devices_list
          (snapshot (record { agent_id = none; device_id = none }) g),
      g,
    )
    handle_control_request sequence waiter (Control.ControlRequest.agent_status payload) g = (
      Control.ControlResponse.agent_status (
          pop (snapshot (record { agent_id = payload.agent_id; device_id = payload.device_id }) g)),
      g,
    )

    -- The frame's answer, if it has one.
    unfoldable pub answer : ControlFrame → Gateway V → Option ControlResponse × Gateway V
    unfolding handle_control_request
    answer (text request sequence waiter) g =
        let (response, g') = handle_control_request sequence waiter request g in (some response, g')
    answer (invalid message) g = (some (error ("invalid control payload: " ⧺ message)), g)
    answer ping_frame g = (some pong, g)
    answer binary_frame g = (some (error "binary frames are unsupported on /control"), g)
    answer _ g = (none, g)

    abbrev first :
        ControlResponse
        → Result (Unit {0}) × List ControlResponse × Gateway V
        → Result (Unit {0}) × List ControlResponse × Gateway V
    first response (result, sent, g) = (result, response ∷ sent, g)

    -- The loop, with the answers that are sent; `room` of them can be written.
    unfoldable pub handle_control_websocket :
        ℕ → List ControlFrame → Gateway V → Result (Unit {0}) × List ControlResponse × Gateway V
    unfolding answer
    handle_control_websocket room [] g = (ok tt, [], g)
    handle_control_websocket room (close_frame ∷ frames) g = (ok tt, [], g)
    handle_control_websocket room (unreadable message ∷ frames) g =
        (err (io ("control read failed: " ⧺ message)), [], g)
    handle_control_websocket room (frame ∷ frames) g =
        let (response, g') = answer frame g in
        elim response [
          | none ↦ handle_control_websocket room frames g'
          | some r ↦ elim room [
            | zero ↦ (err (io "control write failed"), [], g')
            | suc room' ↦ first r (handle_control_websocket room' frames g')
          ]
        ]
