-- ===== src/Server/Client/Balance/Messages.antt =====
-- A client's message keeps the count of sessions and stops.
use speechmesh.Common.{
  ℕ, ◌≡◌, refl, true, false, Option, none, some, List, arith, Option-cases, sym, subst, Bool-cases,
  inl, inr, ◌⊎◌,
}
use speechmesh.Core.{SessionId, RequestId}
use speechmesh.Tts.{VoiceDescriptor}
use speechmesh.Bridges.Error.{Result, ok, err}
use speechmesh.Bridges.AsrEvents.{BridgeCommand}
use speechmesh.Bridges.TtsEvents.{BridgeTtsCommand, append_input}
use speechmesh.Transport.Client.{
  ClientMessage, hello, discover, asr_transcribe, asr_start, asr_commit, tts_voices, tts_start,
  tts_input_append, tts_commit, session_stop, session_cancel, ping,
}
use speechmesh.Transport.Server.{ServerMessage, tts_voices_result}
use speechmesh.Server.Client.{
  ActiveSession, asr_command, tts_command, BridgeAsrSessionHandle, BridgeTtsSessionHandle,
  TtsBridge, Bridges, Connection, Handled, reply, command, with_active_asr, with_active_tts, begin,
  begin_asr, begin_tts,
}
use speechmesh.Server.Client.Messages.{handle_client_message, try, with_tts, if_idle}
use speechmesh.Server.Client.Balance.{
  IsBalanced, is_started, is_stop, reply-IsBalanced, command-IsBalanced, with_active_asr-IsBalanced,
  with_active_tts-IsBalanced, stop_session-IsBalanced,
}

begin-IsBalanced :
    (id : SessionId) (rx : ℕ) (m : ServerMessage) (a : ActiveSession) (s : Connection)
    → is_started m ≡ true
    → s.active_session ≡ none
    → IsBalanced s
    → IsBalanced (begin id rx m a s).1
begin-IsBalanced id rx m a s starts idle v = elim (Bool-cases s.out_open) [
  | inl up ↦
      rw up (record { received = v.received; balance = ground (arith, starts, idle, v.balance) })
  | inr down ↦ rw down (record { received = v.received; balance = v.balance })
]

begin_asr-IsBalanced :
    (request_id : RequestId) (h : BridgeAsrSessionHandle) (s : Connection)
    → s.active_session ≡ none
    → IsBalanced s
    → IsBalanced (begin_asr request_id h s).1
begin_asr-IsBalanced request_id h s q v = go h.event_rx refl
  where
    go : (o : Option ℕ) → h.event_rx ≡ o → IsBalanced (begin_asr request_id h s).1
    go none e = rw e v
    go (some rx) e = rw e (begin-IsBalanced _ rx _ _ s refl q v)

begin_tts-IsBalanced :
    (request_id : RequestId) (h : BridgeTtsSessionHandle) (s : Connection)
    → s.active_session ≡ none
    → IsBalanced s
    → IsBalanced (begin_tts request_id h s).1
begin_tts-IsBalanced request_id h s q v = go h.event_rx refl
  where
    go : (o : Option ℕ) → h.event_rx ≡ o → IsBalanced (begin_tts request_id h s).1
    go none e = rw e v
    go (some rx) e = rw e (begin-IsBalanced _ rx _ _ s refl q v)

try-IsBalanced :
    {A : Type 0} (r : Result A) (f : A → Connection → Handled) (s : Connection)
    → ((a : A) → IsBalanced (f a s).1)
    → IsBalanced s
    → IsBalanced (try r f s).1
try-IsBalanced (ok a) f s fine v = fine a
try-IsBalanced (err e) f s fine v = v

asr_command-IsBalanced :
    (id : SessionId) (c : BridgeCommand) (s : Connection)
    → is_stop (asr_command c) ≡ false
    → IsBalanced s
    → IsBalanced (with_active_asr id (λ handle. command handle.command_tx (asr_command c)) s).1
asr_command-IsBalanced id c s other v =
    with_active_asr-IsBalanced id (λ handle. command handle.command_tx (asr_command c)) s
      (λ h. command-IsBalanced h.command_tx (asr_command c) s other v) v

tts_command-IsBalanced :
    (id : SessionId) (c : BridgeTtsCommand) (s : Connection)
    → is_stop (tts_command c) ≡ false
    → IsBalanced s
    → IsBalanced (with_active_tts id (λ handle. command handle.command_tx (tts_command c)) s).1
tts_command-IsBalanced id c s other v =
    with_active_tts-IsBalanced id (λ handle. command handle.command_tx (tts_command c)) s
      (λ h. command-IsBalanced h.command_tx (tts_command c) s other v) v

with_tts-IsBalanced :
    {V F : Type 0} (o : Option (TtsBridge V F)) (f : TtsBridge V F → Connection → Handled)
    (s : Connection)
    → ((b : TtsBridge V F) → IsBalanced (f b s).1)
    → IsBalanced s
    → IsBalanced (with_tts o f s).1
with_tts-IsBalanced none f s fine v = v
with_tts-IsBalanced (some b) f s fine v = fine b

if_idle_cases :
    (f : Connection → Handled) (s : Connection)
    → ((s.active_session ≡ none) × ((if_idle f s).1 ≡ (f s).1)) ⊎ ((if_idle f s).1 ≡ s)
if_idle_cases f s = elim (Option-cases s.active_session) [
  | inl q ↦ inl (q, ground (arith, q))
  | inr (a, q) ↦ inr (ground (arith, q))
]

if_idle-IsBalanced :
    (f : Connection → Handled) (s : Connection)
    → (s.active_session ≡ none → IsBalanced (f s).1)
    → IsBalanced s
    → IsBalanced (if_idle f s).1
if_idle-IsBalanced f s fine v = elim (if_idle_cases f s) [
  | inl (q, e) ↦ subst IsBalanced (sym e) (fine q)
  | inr e ↦ subst IsBalanced (sym e) v
]

module _ {V F T : Type 0} where
  pub handle_client_message-IsBalanced :
      (bridges : Bridges V F) (m : ClientMessage V F T) (s : Connection)
      → IsBalanced s
      → IsBalanced (handle_client_message bridges m s).1
  unfolding handle_client_message
  handle_client_message-IsBalanced bridges (hello request_id payload) s v =
      reply-IsBalanced _ s refl v
  handle_client_message-IsBalanced bridges (discover request_id domains) s v =
      reply-IsBalanced _ s refl v
  handle_client_message-IsBalanced bridges (asr_transcribe request_id payload) s v = v
  handle_client_message-IsBalanced bridges (asr_start request_id payload) s v =
      if_idle-IsBalanced (try (bridges.start_stream payload) (begin_asr request_id)) s
        (λ q.
          try-IsBalanced (bridges.start_stream payload) (begin_asr request_id) s
            (λ h. begin_asr-IsBalanced request_id h s q v) v)
        v
  handle_client_message-IsBalanced bridges (asr_commit id) s v =
      asr_command-IsBalanced id BridgeCommand.commit s refl v
  handle_client_message-IsBalanced bridges (tts_voices request_id payload) s v =
      let answer = λ (voices : List VoiceDescriptor). reply (tts_voices_result request_id voices) in
      let ask = λ (b : TtsBridge V F). try (b.list_voices payload) answer in
      with_tts-IsBalanced bridges.tts_bridge ask s
        (λ b.
          try-IsBalanced (b.list_voices payload) answer s (λ voices. reply-IsBalanced _ s refl v) v)
        v
  handle_client_message-IsBalanced bridges (tts_start request_id payload) s v =
      let start = λ (b : TtsBridge V F). try (b.start_stream payload) (begin_tts request_id) in
      if_idle-IsBalanced (with_tts bridges.tts_bridge start) s
        (λ q.
          with_tts-IsBalanced bridges.tts_bridge start s
            (λ b.
              try-IsBalanced (b.start_stream payload) (begin_tts request_id) s
                (λ h. begin_tts-IsBalanced request_id h s q v) v)
            v)
        v
  handle_client_message-IsBalanced bridges (tts_input_append id delta) s v =
      tts_command-IsBalanced id (append_input delta) s refl v
  handle_client_message-IsBalanced bridges (tts_commit id) s v =
      tts_command-IsBalanced id BridgeTtsCommand.commit s refl v
  handle_client_message-IsBalanced bridges (session_stop id) s v = stop_session-IsBalanced id s v
  handle_client_message-IsBalanced bridges (session_cancel id) s v = stop_session-IsBalanced id s v
  handle_client_message-IsBalanced bridges (ping request_id) s v = reply-IsBalanced _ s refl v
