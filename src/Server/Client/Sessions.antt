-- ===== src/Server/Client/Sessions.antt =====
-- How a client's message moves the session of its connection.
use speechmesh.Common.{
  ℕ, ◌≡◌, refl, Option, none, some, List, arith, inl, inr, Bool-cases, sym, subst,
}
use speechmesh.Core.{SessionId, RequestId}
use speechmesh.Tts.{VoiceDescriptor}
use speechmesh.Bridges.Error.{Result, ok, err}
use speechmesh.Bridges.TtsEvents.{append_input}
use speechmesh.Transport.Client.{
  ClientMessage, hello, discover, asr_transcribe, asr_start, asr_commit, tts_voices, tts_start,
  tts_input_append, tts_commit, session_stop, session_cancel, ping,
}
use speechmesh.Transport.Server.{ServerMessage, tts_voices_result}
use speechmesh.Server.Client.{
  ActiveSession, BridgeAsrSessionHandle, BridgeTtsSessionHandle, TtsBridge, Bridges, Connection,
  Handled, reply, begin, begin_asr, begin_tts,
}
use speechmesh.Server.Client.Messages.{handle_client_message, try, with_tts, if_idle}
use speechmesh.Server.Client.Moves.{
  Moves, stays, opens, reply-Moves, asr_command-Moves, tts_command-Moves, stop_session-Moves,
}

begin-Moves :
    (named : Option SessionId) (id : SessionId) (rx : ℕ) (m : ServerMessage) (a : ActiveSession)
    (s : Connection)
    → s.active_session ≡ none
    → Moves named s (begin id rx m a s).1
begin-Moves named id rx m a s q = elim (Bool-cases s.out_open) [
  | inl up ↦ rw up (opens a m q refl refl refl)
  | inr down ↦ rw down (stays refl refl)
]

-- The session that a message names.
abbrev pub named : {V F T : Type 0} → ClientMessage V F T → Option SessionId
named (asr_commit id) = some id
named (tts_input_append id delta) = some id
named (tts_commit id) = some id
named (session_stop id) = some id
named (session_cancel id) = some id
named _ = none

begin_asr-Moves :
    (request_id : RequestId) (h : BridgeAsrSessionHandle) (s : Connection)
    → s.active_session ≡ none
    → Moves none s (begin_asr request_id h s).1
begin_asr-Moves request_id h s q = go h.event_rx refl
  where
    go : (o : Option ℕ) → h.event_rx ≡ o → Moves none s (begin_asr request_id h s).1
    go none e = rw e (stays refl refl)
    go (some rx) e = rw e (begin-Moves none _ rx _ _ s q)

begin_tts-Moves :
    (request_id : RequestId) (h : BridgeTtsSessionHandle) (s : Connection)
    → s.active_session ≡ none
    → Moves none s (begin_tts request_id h s).1
begin_tts-Moves request_id h s q = go h.event_rx refl
  where
    go : (o : Option ℕ) → h.event_rx ≡ o → Moves none s (begin_tts request_id h s).1
    go none e = rw e (stays refl refl)
    go (some rx) e = rw e (begin-Moves none _ rx _ _ s q)

try-Moves :
    {A : Type 0} (r : Result A) (f : A → Connection → Handled) (s : Connection)
    → ((a : A) → Moves none s (f a s).1)
    → Moves none s (try r f s).1
try-Moves (ok a) f s h = h a
try-Moves (err e) f s h = stays refl refl

with_tts-Moves :
    {V F : Type 0} (o : Option (TtsBridge V F)) (f : TtsBridge V F → Connection → Handled)
    (s : Connection)
    → ((b : TtsBridge V F) → Moves none s (f b s).1)
    → Moves none s (with_tts o f s).1
with_tts-Moves none f s h = stays refl refl
with_tts-Moves (some b) f s h = h b

if_idle-Moves :
    (f : Connection → Handled) (s : Connection)
    → (s.active_session ≡ none → Moves none s (f s).1)
    → Moves none s (if_idle f s).1
if_idle-Moves f s h = go s.active_session refl
  where
    same : s.active_session ≡ none → (if_idle f s).1 ≡ (f s).1
    same q = ground (arith, q)

    shut : (a : ActiveSession) → s.active_session ≡ some a → (if_idle f s).1 ≡ s
    shut a q = ground (arith, q)

    go : (o : Option ActiveSession) → s.active_session ≡ o → Moves none s (if_idle f s).1
    go none q = subst (Moves none s) (sym (same q)) (h q)
    go (some a) q = subst (Moves none s) (sym (shut a q)) (stays refl refl)

module _ {V F T : Type 0} where
  -- A client's message moves its connection in one of four ways: session and commands stay; or the
  -- session that the message names is the active one and is sent one command of its own domain; or
  -- there was no session, one opens, and the client is sent one message; or the session that the
  -- message names is sent a stop and is no longer active.
  pub handle_client_message-Moves :
      (bridges : Bridges V F) (m : ClientMessage V F T) (s : Connection)
      → Moves (named m) s (handle_client_message bridges m s).1
  unfolding handle_client_message
  handle_client_message-Moves bridges (hello request_id payload) s = reply-Moves none _ s
  handle_client_message-Moves bridges (discover request_id domains) s = reply-Moves none _ s
  handle_client_message-Moves bridges (asr_transcribe request_id payload) s = stays refl refl
  handle_client_message-Moves bridges (asr_start request_id payload) s =
      if_idle-Moves (try (bridges.start_stream payload) (begin_asr request_id)) s (λ q.
        try-Moves (bridges.start_stream payload) (begin_asr request_id) s
          (λ h. begin_asr-Moves request_id h s q))
  handle_client_message-Moves bridges (asr_commit id) s = asr_command-Moves id _ s
  handle_client_message-Moves bridges (tts_voices request_id payload) s =
      let answer = λ (voices : List VoiceDescriptor). reply (tts_voices_result request_id voices) in
      let ask = λ (b : TtsBridge V F). try (b.list_voices payload) answer in
      with_tts-Moves bridges.tts_bridge ask s
        (λ b. try-Moves (b.list_voices payload) answer s (λ voices. reply-Moves none _ s))
  handle_client_message-Moves bridges (tts_start request_id payload) s =
      let start = λ (b : TtsBridge V F). try (b.start_stream payload) (begin_tts request_id) in
      if_idle-Moves (with_tts bridges.tts_bridge start) s (λ q.
        with_tts-Moves bridges.tts_bridge start s (λ b.
          try-Moves (b.start_stream payload) (begin_tts request_id) s
            (λ h. begin_tts-Moves request_id h s q)))
  handle_client_message-Moves bridges (tts_input_append id delta) s =
      tts_command-Moves id (append_input delta) s
  handle_client_message-Moves bridges (tts_commit id) s = tts_command-Moves id _ s
  handle_client_message-Moves bridges (session_stop id) s = stop_session-Moves id s
  handle_client_message-Moves bridges (session_cancel id) s = stop_session-Moves id s
  handle_client_message-Moves bridges (ping request_id) s = reply-Moves none _ s
