-- ===== src/Bridges/Mock/Examples.antt =====
-- A session of the mock recognition bridge: two chunks, a commit, and a chunk that comes too late.
use speechmesh.Common.{◌≡◌, List, [], ◌∷◌, none}
use speechmesh.Core.{streaming}
use speechmesh.Common.Slices.{take}
use speechmesh.Bridges.AsrEvents.{BridgeCommand, push_audio, commit, ended}
use speechmesh.Bridges.Mock.Asr.{run_session, partial_of, final_of}
use speechmesh.Bridges.Mock.Events.{run_session_events}

abbrev commands : List BridgeCommand
commands = push_audio (1 ∷ 2 ∷ []) ∷ push_audio (3 ∷ 4 ∷ []) ∷ commit ∷ push_audio (5 ∷ []) ∷ []

run_session_events_example :
    run_session streaming 4 0 commands ≡ partial_of 2 ∷ partial_of 4 ∷ final_of 4 ∷ ended none ∷ []
unfolding take
run_session_events_example = run_session_events streaming 4 commands
