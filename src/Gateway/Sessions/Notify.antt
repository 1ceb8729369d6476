-- ===== src/Gateway/Sessions/Notify.antt =====
-- What the owner of a session is told when its agent goes.
use speechmesh.Common.{true, ◌≡◌, none, some, [], ◌∷◌, arith, ◌⧺◌, Memᴰ, Option-cases, inl, inr, ap}
use speechmesh.Core.{SessionId}
use speechmesh.Device.Registry.{Sender}
use speechmesh.Bridges.Error.{disconnected, err}
use speechmesh.Bridges.AsrEvents.{ended, error}
use speechmesh.Gateway.State.{SessionRoute, Gateway, Delivery, event, started, send, debug_session}
use speechmesh.Gateway.Sessions.{Impacted, finish_session, finish_sessions}
use speechmesh.Gateway.Log.{Logs, Logs-refl, Logs-trans, send-Logs, send-mem}

module _ {V : Type 0} where
  -- What the owner of a session is told when the session's agent goes: the start failed, or the
  -- running session ended with an error. It is told if it still listens.
  pub record Told (session_id : SessionId) (route : SessionRoute) (h : Gateway V) : Type 0 where
    pub pending :
        (tx : Sender)
        → route.started_tx ≡ some tx
        → h.is_open tx ≡ true
        → Memᴰ
            (started tx (
              err (
                disconnected
                  ("agent disconnected before session started: " ⧺ debug_session session_id))))
            h.log
    pub running :
        route.started_tx ≡ none
        → h.is_open route.event_tx ≡ true
        → Memᴰ
            (event route.event_tx
              (error ("agent disconnected for session " ⧺ debug_session session_id)))
            h.log
          × Memᴰ (event route.event_tx (ended (some "agent_disconnected"))) h.log

  Told-Logs :
      (session_id : SessionId) (route : SessionRoute) {g h : Gateway V}
      → Told session_id route g
      → Logs g h
      → Told session_id route h
  Told-Logs session_id route t l = record {
    pending = λ tx e up. l.grows _ (t.pending tx e (cc (l.is_open, up)));
    running = λ e up. let (a, b) = t.running e (cc (l.is_open, up)) in (l.grows _ a, l.grows _ b);
  }

  abbrev pub start_lost : SessionId → Sender → Delivery V
  start_lost session_id tx = started tx (
      err (disconnected ("agent disconnected before session started: " ⧺ debug_session session_id)))

  abbrev pub agent_lost : SessionId → SessionRoute → Delivery V
  agent_lost session_id route =
      event route.event_tx (error ("agent disconnected for session " ⧺ debug_session session_id))

  abbrev pub lost_end : SessionRoute → Delivery V
  lost_end route = event route.event_tx (ended (some "agent_disconnected"))

  pub finish_session-pending :
      (session_id : SessionId) (route : SessionRoute) (tx : Sender) (g : Gateway V)
      → route.started_tx ≡ some tx
      → finish_session session_id route g ≡ send tx (start_lost session_id tx) g
  unfolding finish_session
  finish_session-pending session_id route tx g e = ground (arith, e)

  pub finish_session-running :
      (session_id : SessionId) (route : SessionRoute) (g : Gateway V)
      → route.started_tx ≡ none
      → finish_session session_id route g
        ≡ send route.event_tx (lost_end route) (send route.event_tx (agent_lost session_id route) g)
  unfolding finish_session
  finish_session-running session_id route g e = ground (arith, e)

  pub finish_session-Logs :
      (session_id : SessionId) (route : SessionRoute) (g : Gateway V)
      → Logs g (finish_session session_id route g)
  finish_session-Logs session_id route g = elim (Option-cases route.started_tx) [
    | inl e ↦ rw (finish_session-running session_id route g e) (
        Logs-trans (send-Logs route.event_tx (agent_lost session_id route) g)
          (send-Logs route.event_tx (lost_end route) _))
    | inr (tx, e) ↦
        rw (finish_session-pending session_id route tx g e)
          (send-Logs tx (start_lost session_id tx) g)
  ]

  pub finish_session-Told :
      (session_id : SessionId) (route : SessionRoute) (g : Gateway V)
      → Told session_id route (finish_session session_id route g)
  finish_session-Told session_id route g = record {
    pending = λ tx e. rw (finish_session-pending session_id route tx g e) λ up.
        send-mem tx (start_lost session_id tx) g
          (cc ((send-Logs tx (start_lost session_id tx) g).is_open, up));
    running = λ e. rw (finish_session-running session_id route g e) λ up.
        let first = send route.event_tx (agent_lost session_id route) g in
        let l = send-Logs route.event_tx (agent_lost session_id route) g in
        let m = send-Logs route.event_tx (lost_end route) first in
        let up' : first.is_open route.event_tx ≡ true = cc (m.is_open, up) in
        (
          m.grows _ (send-mem _ (agent_lost session_id route) g (cc (l.is_open, up'))),
          send-mem _ (lost_end route) first up',
        );
  }

  pub finish_sessions-Logs : (xs : Impacted) (g : Gateway V) → Logs g (finish_sessions xs g)
  unfolding finish_sessions
  finish_sessions-Logs [] g = Logs-refl g
  finish_sessions-Logs ((session_id, route) ∷ xs) g =
      Logs-trans (finish_session-Logs session_id route g)
        (finish_sessions-Logs xs (finish_session session_id route g))

  pub finish_sessions-Told :
      (xs : Impacted) (g : Gateway V) (session_id : SessionId) (route : SessionRoute)
      → Memᴰ (session_id, route) xs
      → Told session_id route (finish_sessions xs g)
  unfolding finish_sessions
  finish_sessions-Told [] g session_id route m = elim m [ ]
  finish_sessions-Told ((id, r) ∷ xs) g session_id route (Memᴰ.head e) =
      Told-Logs session_id route
        (rw
          (
            ap (λ (x : SessionId × SessionRoute). x.0) e,
            ap (λ (x : SessionId × SessionRoute). x.1) e,
          )
          (finish_session-Told id r g))
        (finish_sessions-Logs xs (finish_session id r g))
  finish_sessions-Told ((id, r) ∷ xs) g session_id route (Memᴰ.tail m) =
      finish_sessions-Told xs (finish_session id r g) session_id route m
