-- ===== src/Server/Control/Examples.antt =====
-- A chime of three bytes, played on the speaker of a gateway that runs another task.
use speechmesh.Common.{
  ℕ, ◌≡◌, refl, String, true, none, some, List, [], ◌∷◌, arith, if◌then◌else◌, ◌==◌, length,
}
use speechmesh.Common.HashMap.{get}
use speechmesh.Common.Slices.{chunks}
use speechmesh.Common.Text.{trim}
use speechmesh.Transport.Agent.{AgentTaskState, AgentTaskStatusPayload, task_status}
use speechmesh.Transport.Control.{ControlPlayAudioPayload}
use speechmesh.Device.Examples.{house, house-IsValid, speaker, speaker_found}
use speechmesh.Bridges.Error.{BridgeError, Result, ok, err}
use speechmesh.Gateway.State.{Gateway}
use speechmesh.Gateway.Valid.{IsValid}
use speechmesh.Gateway.Tasks.{handle_agent_message}
use speechmesh.Server.Control.{handle_control_play_audio, control_chunk_size}
use speechmesh.Server.Control.Frames.{meanwhile}
use speechmesh.Server.Control.Sending.{IsPlayable}
use speechmesh.Server.Control.Playback.{
  played, with_verdict, Played, handle_control_play_audio-Played,
}
use speechmesh.Server.Control.Refusal.{handle_control_play_audio-refused}

abbrev pub gateway : Gateway (Unit {0})
gateway = record {
  device_registry = house;
  expected_shared_secret = none;
  sessions = [];
  task_waiters = ("t1", 30) ∷ [];
  is_open = λ tx. true;
  log = [];
}

gateway-IsValid : IsValid gateway
unfolding get
gateway-IsValid = record {
  registry = house-IsValid;
  sessions_distinct = tt;
  waiters_distinct = (refl, tt);
}

abbrev pub three_bytes : List ℕ
three_bytes = 1 ∷ 2 ∷ 3 ∷ []

abbrev base64 : List ℕ → String
base64 bytes = "AQID"

abbrev pub from_base64 : String → Result (List ℕ)
from_base64 text = ok three_bytes

abbrev pub chime_as : String → ControlPlayAudioPayload
chime_as id = record {
  task_id = some id;
  device_id = some "den";
  output_target = none;
  agent_id = none;
  format = none;
  audio_base64 = "AQID";
  chunk_size_bytes = some 2;
}

abbrev done : AgentTaskStatusPayload
done = record { state = AgentTaskState.finished; message = some "played" }

pub chime-IsPlayable : IsPlayable from_base64 (chime_as " t2 ") gateway " t2 " speaker three_bytes
unfolding trim get
chime-IsPlayable = record {
  valid = gateway-IsValid;
  named = refl;
  not_blank = refl;
  decoded = refl;
  not_silent = omega arith;
  chosen = speaker_found;
  free = refl;
  listens = refl;
}

handle_control_play_audio-Played_example :
    (h : Gateway (Unit {0})) × (handle_control_play_audio base64
        (meanwhile (handle_agent_message (task_status (trim " t2 ") done)))
        from_base64
        1
        40
        (chime_as " t2 ")
        gateway
      ≡ (
        with_verdict (ok done) (record {
          task_id = trim " t2 ";
          routed_agent_id = "den-agent";
          chunk_count = length (chunks (control_chunk_size (some 2)) three_bytes);
          total_bytes = 3;
        }),
        h,
      ))
    × Played base64 (chime_as " t2 ") (trim " t2 ") speaker 40 three_bytes (ok done) gateway h
handle_control_play_audio-Played_example =
    handle_control_play_audio-Played base64 from_base64 1 40 (chime_as " t2 ") gateway " t2 "
      speaker three_bytes done (ok done) chime-IsPlayable refl played

handle_control_play_audio-refused_example :
    (e : BridgeError) × (h : Gateway (Unit {0})) × (handle_control_play_audio base64
        (meanwhile λ g. g)
        from_base64
        1
        40
        (chime_as "t1")
        gateway
      ≡ (err e, h))
    × (h.device_registry ≡ house)
    × (h.log ≡ [])
    × ((t : String)
        → get t h.task_waiters ≡ (if trim "t1" == t then none else get t gateway.task_waiters))
unfolding trim get
handle_control_play_audio-refused_example =
    handle_control_play_audio-refused base64 from_base64 (λ g. g) 1 40 (chime_as "t1") gateway "t1"
      (record { agent_id = "den-agent" }) three_bytes refl refl refl (omega arith) refl
