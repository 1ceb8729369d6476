-- ===== src/LocalAgent/Examples.antt =====
-- A session of two events and its end.
use speechmesh.Common.{◌≡◌, refl, ◌==◌, String, none, List, [], ◌∷◌, ◌++◌, if◌then◌else◌, true}
use speechmesh.Common.HashMap.{HashMap, get, remove}
use speechmesh.Device.Registry.{Sender}
use speechmesh.Device.Examples.{house}
use speechmesh.Bridges.AsrEvents.{BridgeAsrEvent, partial, ended, error}
use speechmesh.Gateway.State.{Gateway, event}
use speechmesh.LocalAgent.{forward_events}
use speechmesh.LocalAgent.Events.{running, handle_messages, with_events, forward_events_arrive}

abbrev listening : Gateway (Unit {0})
listening = record {
  device_registry = house;
  expected_shared_secret = none;
  sessions = ("s1", running "asr-agent" 20) ∷ [];
  task_waiters = [];
  is_open = λ tx. true;
  log = [];
}

abbrev controllers : HashMap Sender
controllers = ("s1", 3) ∷ []

abbrev heard : List BridgeAsrEvent
heard = partial "hello" ∷ error "lost a frame" ∷ []

forward_events_arrive_example :
    (handle_messages (forward_events "s1" (heard ++ ended none ∷ []) controllers).0 listening
      ≡ record listening {
        sessions = remove "s1" listening.sessions;
        log = event 20 (ended none) ∷ with_events 20 heard [];
      })
    × ((k : String)
        → get k (forward_events "s1" (heard ++ ended none ∷ []) controllers).1
          ≡ (if "s1" == k then none else get k controllers))
unfolding get
forward_events_arrive_example =
    forward_events_arrive "s1" "asr-agent" 20 heard none controllers listening refl refl refl
