-- ===== src/Server/Client/Balance.antt =====
-- How many sessions a client's connection opens and stops, and how a send or a command counts.
pub mod Messages
use speechmesh.Common.{
  ℕ, ◌+◌, ◌≡◌, refl, Bool, true, false, Option, none, some, List, [], ◌∷◌, arith, Option-cases, sym,
  subst, Bool-cases, inl, inr, ◌⊎◌, if◌then◌else◌, ◌==◌,
}
use speechmesh.Core.{SessionId, RequestId}
use speechmesh.Tts.{VoiceDescriptor}
use speechmesh.Bridges.Error.{Result, ok, err}
use speechmesh.Bridges.AsrEvents.{BridgeCommand}
use speechmesh.Bridges.TtsEvents.{BridgeTtsCommand, append_input}
use speechmesh.Transport.Client.{
  ClientMessage, hello, discover, asr_transcribe, asr_start, asr_commit, tts_voices, tts_start,
  tts_input_append, tts_commit, session_stop, session_cancel, ping,
}
use speechmesh.Transport.Server.{ServerMessage, session_started, tts_voices_result}
use speechmesh.Server.Client.{
  ActiveSession, asr, tts, session_id, Command, asr_command, tts_command, BridgeAsrSessionHandle,
  BridgeTtsSessionHandle, TtsBridge, Bridges, Connection, Handled, reply, tell, command,
  with_active_asr, with_active_tts, stop_session, begin, begin_asr, begin_tts,
}
use speechmesh.Server.Client.Messages.{handle_client_message, try, with_tts, if_idle}
use speechmesh.Server.Client.Moves.{
  channel, stop_command, with_active_asr_cases, with_active_tts_cases, stop_none, stop_other,
  stop_named,
}

abbrev pub is_started : ServerMessage → Bool
is_started (session_started request_id id payload) = true
is_started _ = false

abbrev pub is_stop : Command → Bool
is_stop (asr_command BridgeCommand.stop) = true
is_stop (tts_command BridgeTtsCommand.stop) = true
is_stop _ = false

-- The sessions that the client was told have started.
abbrev pub started_count : List ServerMessage → ℕ
started_count [] = 0
started_count (m ∷ ms) = let n = started_count ms in if is_started m then n + 1 else n

-- The stops that were sent to sessions.
abbrev pub stop_count : List (ℕ × Command) → ℕ
stop_count [] = 0
stop_count ((tx, c) ∷ cs) = let n = stop_count cs in if is_stop c then n + 1 else n

abbrev pub active_count : Option ActiveSession → ℕ
active_count none = 0
active_count (some a) = 1

-- Every session that has started was stopped once, but for the active one. Commands are received.
pub record IsBalanced (s : Connection) : Type 0 where
  pub received : (tx : ℕ) → s.accepts tx ≡ true
  pub balance : started_count s.sent ≡ stop_count s.commands + active_count s.active_session

pub tell-IsBalanced :
    (m : ServerMessage) (s : Connection)
    → is_started m ≡ false
    → IsBalanced s
    → IsBalanced (tell m s)
tell-IsBalanced m s other v = elim (Bool-cases s.out_open) [
  | inl up ↦ rw up (record { received = v.received; balance = ground (arith, other, v.balance) })
  | inr down ↦ rw down (record { received = v.received; balance = v.balance })
]

pub reply-IsBalanced :
    (m : ServerMessage) (s : Connection)
    → is_started m ≡ false
    → IsBalanced s
    → IsBalanced (reply m s).1
reply-IsBalanced m s other v = elim (Bool-cases s.out_open) [
  | inl up ↦ rw up (record { received = v.received; balance = ground (arith, other, v.balance) })
  | inr down ↦ rw down (record { received = v.received; balance = v.balance })
]

pub command-IsBalanced :
    (tx : ℕ) (c : Command) (s : Connection)
    → is_stop c ≡ false
    → IsBalanced s
    → IsBalanced (command tx c s).1
command-IsBalanced tx c s other v =
    rw (v.received tx)
      (record { received = v.received; balance = ground (arith, other, v.balance) })

pub with_active_asr-IsBalanced :
    (id : SessionId) (f : BridgeAsrSessionHandle → Connection → Handled) (s : Connection)
    → ((h : BridgeAsrSessionHandle) → IsBalanced (f h s).1)
    → IsBalanced s
    → IsBalanced (with_active_asr id f s).1
with_active_asr-IsBalanced id f s fine v = elim (with_active_asr_cases id f s) [
  | inl (h, q, e) ↦ subst (λ (r : Handled). IsBalanced r.1) (sym e) (fine h)
  | inr e ↦ subst IsBalanced (sym e) v
]

pub with_active_tts-IsBalanced :
    (id : SessionId) (f : BridgeTtsSessionHandle → Connection → Handled) (s : Connection)
    → ((h : BridgeTtsSessionHandle) → IsBalanced (f h s).1)
    → IsBalanced s
    → IsBalanced (with_active_tts id f s).1
with_active_tts-IsBalanced id f s fine v = elim (with_active_tts_cases id f s) [
  | inl (h, q, e) ↦ subst (λ (r : Handled). IsBalanced r.1) (sym e) (fine h)
  | inr e ↦ subst IsBalanced (sym e) v
]

pub stop_command_stops : (a : ActiveSession) → is_stop (stop_command a) ≡ true
stop_command_stops (asr id h) = refl
stop_command_stops (tts id h) = refl

pub stop_session-IsBalanced :
    (id : SessionId) (s : Connection) → IsBalanced s → IsBalanced (stop_session id s).1
stop_session-IsBalanced id s v = elim (Option-cases s.active_session) [
  | inl q ↦ subst IsBalanced (sym (stop_none id s q)) v
  | inr (a, q) ↦ elim (Bool-cases (session_id a == id)) [
    | inl same ↦ rw (stop_named id s a q same) (
        rw (v.received (channel a)) (record {
          received = v.received;
          balance = ground (arith, q, v.balance, stop_command_stops a);
        }))
    | inr other ↦ subst IsBalanced (sym (stop_other id s a q other)) v
  ]
]
