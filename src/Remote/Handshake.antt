-- ===== src/Remote/Handshake.antt =====
-- The start of a session on an agent, and what the agent's answer makes of it: RemoteAgentAsrBridge of
-- speechmeshd/src/agent.rs.
use speechmesh.Common.{
  ◌≡◌, refl, ◌∙◌, ◌==◌, String, true, false, Option, none, some, List, [], ◌∷◌, ◌++◌, if◌then◌else◌,
  arith, eq_refl, eq_iff,
}
use speechmesh.Common.HashMap.{get, insert, remove, get-insert, get-remove}
use speechmesh.Core.{SessionId}
use speechmesh.Asr.{StreamRequest, AsrSession}
use speechmesh.Transport.Agent.{session_start}
use speechmesh.Transport.Agent
use speechmesh.Device.Registry.{RegisteredAgent, Sender}
use speechmesh.Bridges.Error.{BridgeError, unavailable, Result, ok, err}
use speechmesh.Gateway.State.{Gateway, Delivery, SessionRoute, command, started}
use speechmesh.Gateway.Sessions.{register_session, fail_session_start, mark_session_started}
use speechmesh.Gateway.Tasks.{select_agent, handle_agent_message}
use speechmesh.Remote.{
  RemoteAgentAsrBridgeConfig, StartMoment, waiting, answered, timed_out, NewSession, start_received,
  await_start, session_of, acknowledged, is_other_provider, start_stream, close,
}

-- What the agent answers before the time is out.
pub data Reply : Type 0 where
  acknowledges refuses : String → Reply
  silent : Reply

module _ {V : Type 0} where
  abbrev pub step_of : SessionId → Reply → Gateway V → Gateway V
  step_of session_id (acknowledges provider_id) g =
      handle_agent_message (Agent.session_started session_id provider_id) g
  step_of session_id (refuses message) g =
      handle_agent_message (Agent.error (some session_id) message) g
  step_of session_id silent g = g

  abbrev pub only_waiting : (Gateway V → Gateway V) → StartMoment → Gateway V → Gateway V
  only_waiting step waiting g = step g
  only_waiting step _ g = g

abbrev pub answer_of : Reply → AsrSession → Result AsrSession
answer_of (acknowledges provider_id) session = ok session
answer_of (refuses message) session = err (unavailable message)
answer_of silent session = err (unavailable "timed out waiting for agent session start")

abbrev pub route_of : Reply → NewSession → RegisteredAgent → Option SessionRoute
route_of (acknowledges provider_id) new a =
    some (record { agent_id = a.agent_id; event_tx = new.event_tx; started_tx = none })
route_of _ new a = none

abbrev pub told : {V : Type 0} → Reply → Sender → List (Delivery V)
told (acknowledges provider_id) tx = started tx (ok tt) ∷ []
told (refuses message) tx = started tx (err (unavailable message)) ∷ []
told silent tx = []

module _ {V : Type 0} (request : StreamRequest V) (new : NewSession) (a : RegisteredAgent) where
  abbrev pending : SessionRoute
  pending = record {
    agent_id = a.agent_id;
    event_tx = new.event_tx;
    started_tx = some new.started_tx;
  }

  -- The gateway once the agent was asked.
  abbrev asked : Gateway V → Gateway V
  asked g = record g {
    sessions = insert new.session_id pending g.sessions;
    log = command a.command_tx (session_start new.session_id request) ∷ g.log;
  }

  -- The gateway at the end.
  abbrev after_reply : Reply → Gateway V → Gateway V
  after_reply (acknowledges provider_id) g = record (asked g) {
    sessions =
        insert new.session_id
          (record { agent_id = a.agent_id; event_tx = new.event_tx; started_tx = none })
          (asked g).sessions;
    log = started new.started_tx (ok tt) ∷ (asked g).log;
  }
  after_reply (refuses message) g = record (asked g) {
    sessions = remove new.session_id (asked g).sessions;
    log = started new.started_tx (err (unavailable message)) ∷ (asked g).log;
  }
  after_reply silent g = record (close new.started_tx (asked g)) {
    sessions = remove new.session_id (asked g).sessions;
  }

  is_pending : (g : Gateway V) → get new.session_id (asked g).sessions ≡ some pending
  is_pending g =
      rw (get-insert new.session_id new.session_id pending g.sessions, eq_refl new.session_id) refl

  acknowledged_by :
      (provider_id : String) (g : Gateway V)
      → g.is_open new.started_tx ≡ true
      → step_of new.session_id (acknowledges provider_id) (asked g)
        ≡ after_reply (acknowledges provider_id) g
  unfolding handle_agent_message mark_session_started
  acknowledged_by provider_id g hears = ground (arith, hears, is_pending g)

  refused_by :
      (message : String) (g : Gateway V)
      → g.is_open new.started_tx ≡ true
      → step_of new.session_id (refuses message) (asked g) ≡ after_reply (refuses message) g
  unfolding handle_agent_message fail_session_start
  refused_by message g hears = ground (arith, hears, is_pending g)

  given_up :
      (g : Gateway V) (e : BridgeError)
      → fail_session_start new.session_id e (close new.started_tx (asked g)) ≡ after_reply silent g
  unfolding fail_session_start
  given_up g e = ground (arith, is_pending g)

  heard :
      (g : Gateway V) (r : Result (Unit {0})) (log : List (Delivery V))
      → g.log ≡ started new.started_tx r ∷ log
      → await_start new g ≡ answered r
  unfolding await_start start_received
  heard g r log e = rw (await_start, e) (ground arith)

  unheard :
      (g : Gateway V)
      → start_received new.started_tx g.log ≡ none
      → await_start new (asked g) ≡ timed_out
  unfolding await_start start_received
  unheard g fresh = ground (arith, fresh, is_pending g)

  module _ (get_option : V → String → Option V) (as_str : V → Option String)
      (config : RemoteAgentAsrBridgeConfig) where
    asked_for :
        (step : Gateway V → Gateway V) (g : Gateway V)
        → is_other_provider config.provider_id request.provider.provider_id ≡ false
        → select_agent config.provider_id g ≡ some a
        → g.is_open a.command_tx ≡ true
        → start_stream get_option as_str (only_waiting step) config new request g
          ≡ acknowledged get_option as_str
              (only_waiting step)
              config
              new
              request
              (await_start new (step (asked g)))
              (step (asked g))
    unfolding start_stream register_session
    asked_for step g mine chosen up = rw (start_stream, mine, chosen, up) refl

    -- Let a recognition request name no provider or the bridge's own, an agent be registered for
    -- it that listens, and the start's channel be new and open; and let the agent acknowledge the
    -- session, refuse it or be silent, with nothing else in between. The caller gets the session,
    -- the refusal, or the error of the time-out. The agent was sent the start, and the start's
    -- channel the agent's answer, if there is one. The session is registered, with no start
    -- pending, if it was acknowledged, and is not registered otherwise; the other sessions stay.
    pub start_stream_answered :
        (reply : Reply) (g : Gateway V)
        → is_other_provider config.provider_id request.provider.provider_id ≡ false
        → select_agent config.provider_id g ≡ some a
        → g.is_open a.command_tx ≡ true
        → g.is_open new.started_tx ≡ true
        → start_received new.started_tx g.log ≡ none
        → (h : Gateway V) × (start_stream get_option as_str
              (only_waiting (step_of new.session_id reply))
              config
              new
              request
              g
            ≡ (answer_of reply (session_of get_option as_str config new.session_id request), h))
          × ((k : SessionId)
              → get k h.sessions
                ≡ (if new.session_id == k then route_of reply new a else get k g.sessions))
          × (h.log
              ≡ told reply new.started_tx
                ++ command a.command_tx (session_start new.session_id request) ∷ g.log)
    start_stream_answered (acknowledges provider_id) g mine chosen up hears fresh =
        let step = step_of new.session_id (acknowledges provider_id) in
        let by = acknowledged_by provider_id g hears in
        (
          after_reply (acknowledges provider_id) g,
          asked_for step g mine chosen up
              ∙ rw (by, heard (after_reply (acknowledges provider_id) g) (ok tt) (asked g).log refl)
                  refl,
          (λ k. ground (
            arith,
            eq_iff new.session_id k,
            get-insert new.session_id k pending g.sessions,
            get-insert new.session_id k
                (record { agent_id = a.agent_id; event_tx = new.event_tx; started_tx = none })
                (asked g).sessions,
          )),
          refl,
        )
    start_stream_answered (refuses message) g mine chosen up hears fresh =
        let step = step_of new.session_id (refuses message) in
        let by = refused_by message g hears in
        (
          after_reply (refuses message) g,
          asked_for step g mine chosen up
              ∙ rw
                  (
                    by,
                    heard (after_reply (refuses message) g) (err (unavailable message))
                        (asked g).log refl,
                  )
                  refl,
          (λ k. ground (
            arith,
            eq_iff new.session_id k,
            get-insert new.session_id k pending g.sessions,
            get-remove new.session_id k (asked g).sessions,
          )),
          refl,
        )
    start_stream_answered silent g mine chosen up hears fresh = (
      after_reply silent g,
      asked_for (λ g. g) g mine chosen up
          ∙ rw
              (
                unheard g fresh,
                given_up g (unavailable "timed out waiting for agent session start"),
              )
              refl,
      (λ k. ground (
        arith,
        eq_iff new.session_id k,
        get-insert new.session_id k pending g.sessions,
        get-remove new.session_id k (asked g).sessions,
      )),
      refl,
    )
