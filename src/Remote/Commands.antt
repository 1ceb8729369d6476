-- ===== src/Remote/Commands.antt =====
-- The commands of a session on their way to an agent: forward_commands_to_agent of
-- speechmeshd/src/agent.rs.
use speechmesh.Common.{
  ℕ, ◌+◌, ◌≡◌, refl, String, true, some, List, [], ◌∷◌, map, if◌then◌else◌, Bool-cases, inl, inr,
  ◌∙◌,
}
use speechmesh.Core.{SessionId}
use speechmesh.Device.Registry.{Sender}
use speechmesh.Bridges.AsrEvents.{BridgeCommand, error, ended}
use speechmesh.Gateway.State.{Gateway, command, event}
use speechmesh.Gateway.Log.{pushed}
use speechmesh.Remote.{outbound, forward_commands_to_agent}

module _ {V : Type 0} (encode : List ℕ → String) (session_id : SessionId)
    (agent_tx event_tx : Sender) where
  -- Where nothing runs in between.
  abbrev pub forward : ℕ → List BridgeCommand → Gateway V → Gateway V
  forward = forward_commands_to_agent encode (λ index g. g) session_id agent_tx event_tx

  forwarded_all :
      (index : ℕ) (commands : List BridgeCommand) (g : Gateway V)
      → g.is_open agent_tx ≡ true
      → forward index commands g
        ≡ record g { log = pushed agent_tx (map (outbound encode session_id) commands) g.log }
  unfolding forward_commands_to_agent
  forwarded_all index [] g up = refl
  forwarded_all index (c ∷ commands) g up = rw up (
      forwarded_all (index + 1) commands
        (record g { log = command agent_tx (outbound encode session_id c) ∷ g.log }) up)

  -- Where nothing runs in between and the session's listener is open, some commands of a session
  -- are all sent to its agent, in order, if the agent's channel is open; if it is closed, none is,
  -- and the listener gets one error and then the end.
  pub forward_commands_to_agent_reports :
      (index : ℕ) (c : BridgeCommand) (commands : List BridgeCommand) (g : Gateway V)
      → g.is_open event_tx ≡ true
      → forward index (c ∷ commands) g ≡ record g {
        log =
            if g.is_open agent_tx
            then pushed agent_tx (map (outbound encode session_id) (c ∷ commands)) g.log
            else event event_tx (ended (some "agent_disconnected"))
              ∷ event event_tx (error "agent command channel closed")
              ∷ g.log;
      }
  unfolding forward_commands_to_agent
  forward_commands_to_agent_reports index c commands g hears =
      elim (Bool-cases (g.is_open agent_tx)) [
        | inl up ↦ forwarded_all index (c ∷ commands) g up ∙ rw up refl
        | inr down ↦ rw (down, hears) (rw hears refl)
      ]
