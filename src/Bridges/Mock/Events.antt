-- ===== src/Bridges/Mock/Events.antt =====
-- The events of a session of bridges/src/asr/mock.rs, told from all its commands at once.
use speechmesh.Common.{
  ℕ, ◌+◌, zero, suc, ◌≡◌, refl, ap, some, none, List, [], ◌∷◌, ◌++◌, map, length,
}
use speechmesh.Common.Slices.{take}
use speechmesh.Core.{StreamMode, streaming, buffered}
use speechmesh.Bridges.AsrEvents.{BridgeAsrEvent, ended, BridgeCommand, push_audio, commit, stop}
use speechmesh.Common.Channel.{send, send_last, send_both}
use speechmesh.Bridges.Mock.Asr.{run_session, partial_of, final_of}

-- The sizes of the chunks before the first commit or stop.
abbrev pub pushed_sizes : List BridgeCommand → List ℕ
pushed_sizes [] = []
pushed_sizes (push_audio chunk ∷ commands) = length chunk ∷ pushed_sizes commands
pushed_sizes (commit ∷ commands) = []
pushed_sizes (stop ∷ commands) = []

abbrev pub sum_on : ℕ → List ℕ → ℕ
sum_on total [] = total
sum_on total (size ∷ sizes) = sum_on (total + size) sizes

-- The sums of the first one, two, … sizes, on top of `total`.
abbrev pub sums_on : ℕ → List ℕ → List ℕ
sums_on total [] = []
sums_on total (size ∷ sizes) = (total + size) ∷ sums_on (total + size) sizes

abbrev pub partials : StreamMode → List ℕ → List BridgeAsrEvent
partials streaming totals = map partial_of totals
partials buffered totals = []

-- What the first commit or stop brings, when `total` bytes came before it.
abbrev pub ending : ℕ → List BridgeCommand → List BridgeAsrEvent
ending total [] = []
ending total (push_audio chunk ∷ commands) = ending total commands
ending total (commit ∷ commands) = final_of total ∷ ended none ∷ []
ending total (stop ∷ commands) = ended (some "stopped") ∷ []

abbrev pub events_on : StreamMode → ℕ → List BridgeCommand → List BridgeAsrEvent
events_on mode total commands =
    partials mode (sums_on total (pushed_sizes commands))
    ++ ending (sum_on total (pushed_sizes commands)) commands

run_on :
    (mode : StreamMode) (room total : ℕ) (commands : List BridgeCommand)
    → run_session mode room total commands ≡ take room (events_on mode total commands)
unfolding run_session send take
run_on streaming zero total [] = refl
run_on streaming (suc room) total [] = refl
run_on buffered zero total [] = refl
run_on buffered (suc room) total [] = refl
run_on streaming zero total (push_audio chunk ∷ commands) = refl
run_on streaming (suc room) total (push_audio chunk ∷ commands) =
    ap (partial_of (total + length chunk) ∷◌)
      (run_on streaming room (total + length chunk) commands)
run_on buffered room total (push_audio chunk ∷ commands) =
    run_on buffered room (total + length chunk) commands
run_on streaming room total (commit ∷ commands) = send_both room (final_of total) (ended none)
run_on buffered room total (commit ∷ commands) = send_both room (final_of total) (ended none)
run_on streaming room total (stop ∷ commands) = send_last room (ended (some "stopped"))
run_on buffered room total (stop ∷ commands) = send_last room (ended (some "stopped"))

-- A session of the mock recognition bridge sends the partials, if it streams, of the total sizes
-- after each chunk before the first commit or stop, and then what that commit or stop brings: the
-- transcript of the total size and an end, or a stopped end. If the receiver takes fewer events
-- than those, it gets the first of them.
pub run_session_events :
    (mode : StreamMode) (room : ℕ) (commands : List BridgeCommand)
    → run_session mode room 0 commands ≡ take room (events_on mode 0 commands)
run_session_events mode room commands = run_on mode room 0 commands
