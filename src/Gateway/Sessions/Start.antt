-- ===== src/Gateway/Sessions/Start.antt =====
-- The start of a session: its acknowledgement, its failure, and its end.
use speechmesh.Common.{
  String, true, ◌≡◌, refl, Option, none, some, ◌∷◌, arith, Option-cases, inl, inr, ap, ◌∙◌, eq_refl,
}
use speechmesh.Common.HashMap.{get, insert, remove, get-insert, get-remove}
use speechmesh.Core.{SessionId}
use speechmesh.Device.Registry.{Sender}
use speechmesh.Bridges.Error.{ok}
use speechmesh.Bridges.AsrEvents.{BridgeAsrEvent, ended}
use speechmesh.Gateway.State.{SessionRoute, Gateway, event, started}
use speechmesh.Gateway.Sessions.{
  register_session, mark_session_started, route_session_ended, route_event,
}

module _ {V : Type 0} where
  pub acknowledged :
      (session_id : SessionId) (g : Gateway V) (r : SessionRoute) (tx : Sender)
      → get session_id g.sessions ≡ some r
      → r.started_tx ≡ some tx
      → (mark_session_started session_id g).sessions
        ≡ insert session_id (record r { started_tx = none }) g.sessions
  unfolding mark_session_started
  acknowledged session_id g r tx e s = ground (arith, e, s)

  pub idle :
      (session_id : SessionId) (g : Gateway V)
      → ((r : SessionRoute) → get session_id g.sessions ≡ some r → r.started_tx ≡ none)
      → mark_session_started session_id g ≡ g
  unfolding mark_session_started
  idle session_id g none_pending = elim (Option-cases (get session_id g.sessions)) [
    | inl e ↦ ground (arith, e)
    | inr (r, e) ↦ ground (arith, e, none_pending r e)
  ]

  -- Acknowledging the start of a session a second time changes nothing: its starter is told once.
  pub mark_session_started_once :
      (session_id : SessionId) (g : Gateway V)
      → mark_session_started session_id (mark_session_started session_id g)
        ≡ mark_session_started session_id g
  mark_session_started_once session_id g = elim (Option-cases (get session_id g.sessions)) [
    | inl e ↦
        ap (mark_session_started session_id)
          (idle session_id g (λ r h. absurd (ground (arith, e, h))))
    | inr (r, e) ↦ elim (Option-cases r.started_tx) [
      | inl s ↦
          ap (mark_session_started session_id) (idle session_id g (λ q h. ground (arith, e, h, s)))
      | inr (tx, s) ↦ idle session_id (mark_session_started session_id g) (λ q h. ground (
        arith,
        h,
        eq_refl session_id,
        acknowledged session_id g r tx e s,
        get-insert session_id session_id (record r { started_tx = none }) g.sessions,
      ))
    ]
  ]

  at_start :
      (session_id agent_id : String) (event_tx started_tx : Sender) (g : Gateway V)
      → g.is_open started_tx ≡ true
      → (let h =
            mark_session_started session_id
              (register_session agent_id session_id event_tx started_tx g) in
          (get session_id h.sessions
            ≡ some (record { agent_id = agent_id; event_tx = event_tx; started_tx = none }))
          × (h.log ≡ started started_tx (ok tt) ∷ g.log)
          × (h.is_open ≡ g.is_open))
  unfolding mark_session_started register_session
  at_start session_id agent_id event_tx started_tx g waits =
      let p : SessionRoute = record {
        agent_id = agent_id;
        event_tx = event_tx;
        started_tx = some started_tx;
      } in
      let q : SessionRoute = record p { started_tx = none } in
      let m = insert session_id p g.sessions in
      let a = get-insert session_id session_id p g.sessions in
      let b = get-insert session_id session_id q m in
      let s = eq_refl session_id in
      (ground (arith, a, b, s, waits), ground (arith, a, b, s, waits), ground (arith, a, s, waits))

  at_event :
      (session_id : SessionId) (e : BridgeAsrEvent) (r : SessionRoute) (g : Gateway V)
      → get session_id g.sessions ≡ some r
      → g.is_open r.event_tx ≡ true
      → route_event session_id e g ≡ record g { log = event r.event_tx e ∷ g.log }
  unfolding route_event
  at_event session_id e r g at up = ground (arith, at, up)

  at_end :
      (session_id : SessionId) (reason : Option String) (r : SessionRoute) (g : Gateway V)
      → get session_id g.sessions ≡ some r
      → r.started_tx ≡ none
      → g.is_open r.event_tx ≡ true
      → route_session_ended session_id reason g ≡ record g {
        log = event r.event_tx (ended reason) ∷ g.log;
        sessions = remove session_id g.sessions;
      }
  unfolding route_session_ended
  at_end session_id reason r g at s up = ground (arith, at, s, up)

  -- Where both its channels are open, a session that is registered, acknowledged, sent one event
  -- and ended yields, in this order, the start to its starter, and the event and the end to its
  -- listener, and nothing else is sent; afterwards it is not registered.
  pub session_life :
      (session_id agent_id : String) (event_tx started_tx : Sender) (g : Gateway V)
      (e : BridgeAsrEvent) (reason : Option String)
      → g.is_open event_tx ≡ true
      → g.is_open started_tx ≡ true
      → (let h = route_session_ended session_id reason (
            route_event session_id e (
              mark_session_started session_id
                (register_session agent_id session_id event_tx started_tx g))) in
          (h.log
            ≡ event event_tx (ended reason) ∷ event event_tx e ∷ started started_tx (ok tt) ∷ g.log)
          × (get session_id h.sessions ≡ none))
  session_life session_id agent_id event_tx started_tx g e reason listens waits =
      let r : SessionRoute = record {
        agent_id = agent_id;
        event_tx = event_tx;
        started_tx = none;
      } in
      let g1 =
        mark_session_started session_id
          (register_session agent_id session_id event_tx started_tx g) in
      let (at, logged, same) = at_start session_id agent_id event_tx started_tx g waits in
      let up : g1.is_open event_tx ≡ true = cc (same, listens) in
      let e1 = at_event session_id e r g1 at up in
      let g2 : Gateway V = record g1 { log = event event_tx e ∷ g1.log } in
      let e2 = at_end session_id reason r g2 at refl up in
      let all = ap (route_session_ended session_id reason) e1 ∙ e2 in
      (
        ap (λ (h : Gateway V). h.log) all
            ∙ ap (λ l. event event_tx (ended reason) ∷ event event_tx e ∷ l) logged,
        ap (λ (h : Gateway V). get session_id h.sessions) all
            ∙ get-remove session_id session_id g1.sessions
            ∙ ground (arith, eq_refl session_id),
      )
