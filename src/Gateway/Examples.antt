-- ===== src/Gateway/Examples.antt =====
-- A gateway with a registered speaker that plays a task and runs a session.
use speechmesh.Common.{
  Bool, String, true, ◌≡◌, refl, none, some, List, [], ◌∷◌, if◌then◌else◌, ◌==◌, ◌⊎◌,
}
use speechmesh.Common.HashMap.{get, insert, values}
use speechmesh.Transport.Agent.{
  AgentHelloPayload, AgentTaskStatusPayload, AgentTaskState, task_play_audio_chunk,
  task_play_audio_finish, task_status,
}
use speechmesh.Transport.Agent
use speechmesh.Device.Registry.{RegisteredAgent, TaskRoute, Sender}
use speechmesh.Device.Registry
use speechmesh.Device.Examples.{house, house-IsValid}
use speechmesh.Bridges.AsrEvents.{partial, ended}
use speechmesh.Bridges.Error.{ok}
use speechmesh.Gateway.State.{
  Gateway, PlayAudioRouteRequest, event, started, with_registry, to_device_agent_kind,
  to_device_identity,
}
use speechmesh.Gateway.Valid.{IsValid}
use speechmesh.Gateway.Sessions.{
  agent_of_hello, register_agent, unregister_agent, register_session, mark_session_started,
  route_event, route_session_ended,
}
use speechmesh.Gateway.Sessions.Removal.{
  Removed, Registers, unregister_agent-Removed, register_agent-Registers,
}
use speechmesh.Gateway.Sessions.Start.{mark_session_started_once, session_life}
use speechmesh.Gateway.Tasks.{
  select_speaker_agent, register_task, route_play_audio_start, route_play_audio_chunk,
  route_play_audio_finish, handle_agent_message,
}
use speechmesh.Gateway.Tasks.Routing.{Starts, route_play_audio_start-Starts}
use speechmesh.Gateway.Tasks.Status.{
  Relays, Reported, route_play_audio_chunk-Relays, route_play_audio_finish-Relays,
  handle_agent_message-Reported,
}
use speechmesh.Gateway.Calls.{new_gateway}
use speechmesh.Gateway.Run.{Run, then_step, connects, chooses, disconnects, registers_task}
use speechmesh.Gateway.Run.Kept.{IsKept, Run-IsKept}
use speechmesh.Gateway.Connection.{
  Arrival, agent_loop, heartbeat, unreadable, end_of_stream, frame, ping_frame,
}
use speechmesh.Gateway.Connection.Leaving.{Leaves, Gone, agent_loop-Leaves, agent_loop-Gone}

abbrev studio : Gateway (Unit {0})
studio = record {
  device_registry = house;
  expected_shared_secret = some "s3cret";
  sessions = ("s1", record { agent_id = "den-agent"; event_tx = 20; started_tx = some 21 }) ∷ [];
  task_waiters = ("t1", 30) ∷ [];
  is_open = λ tx. true;
  log = [];
}

studio-IsValid : IsValid studio
unfolding get
studio-IsValid = record {
  registry = house-IsValid;
  sessions_distinct = (refl, tt);
  waiters_distinct = (refl, tt);
}

abbrev den_hello : AgentHelloPayload
den_hello = record {
  agent_id = "den-agent";
  agent_name = "Den";
  provider_id = none;
  capabilities = "speaker" ∷ [];
  capability_domains = [];
  agent_kind = Agent.AgentKind.device;
  device = some (record { device_id = "den"; hostname = none; platform = none });
  client_version = none;
  update_status = none;
  shared_secret = some "s3cret";
}

abbrev chime : PlayAudioRouteRequest
chime = record {
  task_id = " t2 ";
  device_id = some "den";
  output_target = none;
  agent_id = none;
  format = none;
}

abbrev done : AgentTaskStatusPayload
done = record { state = AgentTaskState.finished; message = none }

abbrev quiet : List (Arrival (Unit {0}))
quiet =
    (λ g. g, frame 10 ping_frame) ∷ (λ g. g, heartbeat 30000) ∷ (λ g. g, unreadable "reset") ∷ []

-- Another connection registers the agent anew before this one ends.
abbrev reconnected : List (Arrival (Unit {0}))
reconnected = (λ g. (register_agent den_hello 9 g).1, end_of_stream) ∷ []

unregister_agent-Removed_example :
    (let h = unregister_agent "den-agent" studio in
      Removed "den-agent" studio h
      × ((k : String)
          → get k h.device_registry.agents
            ≡ (if "den-agent" == k then none else get k studio.device_registry.agents)))
unregister_agent-Removed_example = unregister_agent-Removed "den-agent" studio studio-IsValid

register_agent-Registers_example : Registers den_hello 9 studio (register_agent den_hello 9 studio)
register_agent-Registers_example = register_agent-Registers den_hello 9 studio studio-IsValid

route_play_audio_start-Starts_example : Starts chime studio (route_play_audio_start chime studio)
route_play_audio_start-Starts_example = route_play_audio_start-Starts chime studio studio-IsValid

route_play_audio_chunk-Relays_example :
    Relays
      (task_play_audio_chunk "t1" "AAA=")
      "t1"
      studio
      (route_play_audio_chunk "t1" "AAA=" studio)
route_play_audio_chunk-Relays_example = route_play_audio_chunk-Relays "t1" "AAA=" studio

route_play_audio_finish-Relays_example :
    Relays (task_play_audio_finish "t1") "t1" studio (route_play_audio_finish "t1" studio)
route_play_audio_finish-Relays_example = route_play_audio_finish-Relays "t1" studio

handle_agent_message-Reported_example :
    ((get "t1" studio.device_registry.tasks ≡ none)
      × (handle_agent_message (task_status "t1" done) studio ≡ studio))
    ⊎ ((r : TaskRoute) × (get "t1" studio.device_registry.tasks ≡ some r)
        × Reported "t1" done done.state studio
            (handle_agent_message (task_status "t1" done) studio))
handle_agent_message-Reported_example = handle_agent_message-Reported "t1" done studio

agent_loop-Leaves_example : Leaves "den-agent" studio (agent_loop "den-agent" 1 quiet 0 studio)
agent_loop-Leaves_example =
    agent_loop-Leaves "den-agent" 1 quiet 0 studio (λ g. refl, (λ g. refl, (λ g. refl, tt)))

agent_loop-Gone_example : Gone "den-agent" (agent_loop "den-agent" 1 reconnected 0 studio)
agent_loop-Gone_example = agent_loop-Gone "den-agent" 1 reconnected 0 studio

mark_session_started_once_example :
    mark_session_started "s1" (mark_session_started "s1" studio) ≡ mark_session_started "s1" studio
mark_session_started_once_example = mark_session_started_once "s1" studio

session_life_example :
    (let h = route_session_ended "s2" none (
        route_event "s2"
          (partial "hi")
          (mark_session_started "s2" (register_session "asr-agent" "s2" 5 6 studio))) in
      (h.log ≡ event 5 (ended none) ∷ event 5 (partial "hi") ∷ started 6 (ok tt) ∷ [])
      × (get "s2" h.sessions ≡ none))
session_life_example = session_life "s2" "asr-agent" 5 6 studio (partial "hi") none refl refl

abbrev all_open : Sender → Bool
all_open tx = true

abbrev den_speaker : RegisteredAgent
den_speaker = agent_of_hello den_hello 1

abbrev den_connected : Gateway (Unit {0})
den_connected =
    let g = new_gateway (some "s3cret") all_open in
    with_registry g (Registry.register_agent g.device_registry den_speaker).0

abbrev den_left : Gateway (Unit {0})
den_left =
    with_registry den_connected
      (Registry.unregister_agent den_connected.device_registry "den-agent").0

den_chosen : select_speaker_agent (some "den") none den_connected ≡ some den_speaker
unfolding select_speaker_agent Registry.select_speaker_agent Registry.register_agent
    Registry.is_speaker_match new_gateway Registry.new values insert get to_device_agent_kind
    to_device_identity
den_chosen = refl

-- The speaker leaves between its choice and the task's registration.
Run-IsKept_example : IsKept (record {
  gateway = (register_task "t2" "den-agent" den_left).1;
  chosen = [];
  stranded = "den-agent" ∷ [];
})
Run-IsKept_example = Run-IsKept {V = Unit {0}} {secret = some "s3cret"} (
    then_step
      (then_step
        (then_step (then_step (Run.start all_open) (connects den_speaker))
          (chooses chime den_speaker den_chosen))
        (disconnects "den-agent"))
      (registers_task "t2" "den-agent" refl))
