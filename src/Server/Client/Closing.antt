-- ===== src/Server/Client/Closing.antt =====
-- What a client's connection leaves behind: it may close, or its reading may fail.
use speechmesh.Common.{◌+◌, ◌≡◌, none}
use speechmesh.Common.Fallible
use speechmesh.Server.Client.{Bridges, Connection}
use speechmesh.Server.Client.Balance.{started_count, stop_count, active_count}

-- The connection, once it is over, with no session active and as many stops as starts; or, where
-- the reading failed, with the session of that time active and not stopped.
abbrev pub Ends : Fallible.Result (Unit {0}) × Connection → Type 0
Ends (Fallible.ok done, t) =
    (t.active_session ≡ none) × (started_count t.sent ≡ stop_count t.commands)
Ends (Fallible.err e, t) =
    started_count t.sent ≡ stop_count t.commands + active_count t.active_session
