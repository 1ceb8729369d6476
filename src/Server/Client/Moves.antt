-- ===== src/Server/Client/Moves.antt =====
-- How a connection moves under commands to its session and under a stop.
use speechmesh.Common.{
  ℕ, true, false, ◌≡◌, refl, Option, none, some, ◌∷◌, arith, ◌==◌, ◌⊎◌, inl, inr, Bool-cases,
  Option-cases, if◌then◌else◌, eq_iff, ap, sym, subst, ◌∙◌,
}
use speechmesh.Core.{SessionId}
use speechmesh.Bridges.AsrEvents.{BridgeCommand}
use speechmesh.Bridges.TtsEvents.{BridgeTtsCommand}
use speechmesh.Transport.Server.{ServerMessage}
use speechmesh.Server.Client.{
  ActiveSession, asr, tts, session_id, Command, asr_command, tts_command, BridgeAsrSessionHandle,
  BridgeTtsSessionHandle, Connection, Handled, reply, command, stop, with_active_asr,
  with_active_tts, stop_session,
}

abbrev pub channel : ActiveSession → ℕ
channel (asr id handle) = handle.command_tx
channel (tts id handle) = handle.command_tx

-- Whether a session takes a command: each domain has its own.
abbrev pub Takes : ActiveSession → Command → Type 0
Takes (asr id handle) (asr_command c) = Unit
Takes (tts id handle) (tts_command c) = Unit
Takes _ _ = ⊥

abbrev pub stop_command : ActiveSession → Command
stop_command (asr id handle) = asr_command BridgeCommand.stop
stop_command (tts id handle) = tts_command BridgeTtsCommand.stop

-- How a connection may move under something that names a session, if it names one. Its session
-- and the commands stay; or the session stays, is the one named, and takes one command more; or
-- there was none and one opens, whose start the client is told; or the session named is stopped
-- and closes.
pub data Moves (named : Option SessionId) (s t : Connection) : Type 0 where
  stays : t.active_session ≡ s.active_session → t.commands ≡ s.commands → Moves named s t
  commanded :
      (a : ActiveSession)
      → (c : Command) → s.active_session ≡ some a
      → t.active_session ≡ some a
      → named ≡ some (session_id a)
      → Takes a c
      → t.commands ≡ (channel a, c) ∷ s.commands
      → Moves named s t
  opens :
      (a : ActiveSession)
      → (m : ServerMessage) → s.active_session ≡ none
      → t.active_session ≡ some a
      → t.commands ≡ s.commands
      → t.sent ≡ m ∷ s.sent
      → Moves named s t
  closes :
      (a : ActiveSession)
      → s.active_session ≡ some a
      → t.active_session ≡ none
      → named ≡ some (session_id a)
      → t.commands ≡ (channel a, stop_command a) ∷ s.commands
      → Moves named s t

pub reply-Moves :
    (named : Option SessionId) (m : ServerMessage) (s : Connection) → Moves named s (reply m s).1
reply-Moves named m s = elim (Bool-cases s.out_open) [
  | inl up ↦ rw up (stays refl refl)
  | inr down ↦ rw down (stays refl refl)
]

-- The two outcomes of `expect_active_asr`.
pub with_active_asr_cases :
    (id : SessionId) (f : BridgeAsrSessionHandle → Connection → Handled) (s : Connection)
    → ((h : BridgeAsrSessionHandle) × (s.active_session ≡ some (asr id h))
        × (with_active_asr id f s ≡ f h s))
      ⊎ ((with_active_asr id f s).1 ≡ s)
unfolding with_active_asr
with_active_asr_cases id f s = go s.active_session refl
  where
    go :
        (o : Option ActiveSession)
        → s.active_session ≡ o
        → ((h : BridgeAsrSessionHandle) × (s.active_session ≡ some (asr id h))
            × (with_active_asr id f s ≡ f h s))
          ⊎ ((with_active_asr id f s).1 ≡ s)
    go none q = inr (ground (arith, q))
    go (some (tts j h)) q = inr (ground (arith, q))
    go (some (asr j h)) q = elim (Bool-cases (j == id)) [
      | inl same ↦
          inl (h, q ∙ ap (λ i. some (asr i h)) ((eq_iff j id).0 same), ground (arith, q, same))
      | inr other ↦ inr (ground (arith, q, other))
    ]

-- The two outcomes of `expect_active_tts`.
pub with_active_tts_cases :
    (id : SessionId) (f : BridgeTtsSessionHandle → Connection → Handled) (s : Connection)
    → ((h : BridgeTtsSessionHandle) × (s.active_session ≡ some (tts id h))
        × (with_active_tts id f s ≡ f h s))
      ⊎ ((with_active_tts id f s).1 ≡ s)
unfolding with_active_tts
with_active_tts_cases id f s = go s.active_session refl
  where
    go :
        (o : Option ActiveSession)
        → s.active_session ≡ o
        → ((h : BridgeTtsSessionHandle) × (s.active_session ≡ some (tts id h))
            × (with_active_tts id f s ≡ f h s))
          ⊎ ((with_active_tts id f s).1 ≡ s)
    go none q = inr (ground (arith, q))
    go (some (asr j h)) q = inr (ground (arith, q))
    go (some (tts j h)) q = elim (Bool-cases (j == id)) [
      | inl same ↦
          inl (h, q ∙ ap (λ i. some (tts i h)) ((eq_iff j id).0 same), ground (arith, q, same))
      | inr other ↦ inr (ground (arith, q, other))
    ]

command-Moves :
    (a : ActiveSession) (c : Command) (s : Connection)
    → s.active_session ≡ some a
    → Takes a c
    → Moves (some (session_id a)) s (command (channel a) c s).1
command-Moves a c s q fits = elim (Bool-cases (s.accepts (channel a))) [
  | inl up ↦ rw up (commanded a c q q refl fits refl)
  | inr down ↦ rw down (stays refl refl)
]

pub asr_command-Moves :
    (id : SessionId) (c : BridgeCommand) (s : Connection)
    → Moves
        (some id)
        s
        (with_active_asr id (λ handle. command handle.command_tx (asr_command c)) s).1
unfolding session_id
asr_command-Moves id c s =
    let f = λ (handle : BridgeAsrSessionHandle). command handle.command_tx (asr_command c) in
    elim (with_active_asr_cases id f s) [
      | inl (h, q, e) ↦
          subst (λ (r : Handled). Moves (some id) s r.1) (sym e)
            (command-Moves (asr id h) (asr_command c) s q tt)
      | inr e ↦ rw e (stays refl refl)
    ]

pub tts_command-Moves :
    (id : SessionId) (c : BridgeTtsCommand) (s : Connection)
    → Moves
        (some id)
        s
        (with_active_tts id (λ handle. command handle.command_tx (tts_command c)) s).1
unfolding session_id
tts_command-Moves id c s =
    let f = λ (handle : BridgeTtsSessionHandle). command handle.command_tx (tts_command c) in
    elim (with_active_tts_cases id f s) [
      | inl (h, q, e) ↦
          subst (λ (r : Handled). Moves (some id) s r.1) (sym e)
            (command-Moves (tts id h) (tts_command c) s q tt)
      | inr e ↦ rw e (stays refl refl)
    ]

pub stop_alike :
    (a : ActiveSession) (s : Connection) → stop a s ≡ command (channel a) (stop_command a) s
stop_alike (asr id h) s = refl
stop_alike (tts id h) s = refl

pub stop_none :
    (id : SessionId) (s : Connection) → s.active_session ≡ none → (stop_session id s).1 ≡ s
unfolding stop_session
stop_none id s q = ground (arith, q)

pub stop_other :
    (id : SessionId) (s : Connection) (a : ActiveSession)
    → s.active_session ≡ some a
    → (session_id a == id) ≡ false
    → (stop_session id s).1 ≡ s
unfolding stop_session
stop_other id s a q other = ground (arith, q, other)

pub stop_named :
    (id : SessionId) (s : Connection) (a : ActiveSession)
    → s.active_session ≡ some a
    → (session_id a == id) ≡ true
    → (stop_session id s).1 ≡ (
        if s.accepts (channel a)
        then record s { commands = (channel a, stop_command a) ∷ s.commands; active_session = none }
        else s)
unfolding stop_session
stop_named id s a q same = ground (arith, q, same, stop_alike a s)

pub stop_session-Moves : (id : SessionId) (s : Connection) → Moves (some id) s (stop_session id s).1
stop_session-Moves id s = elim (Option-cases s.active_session) [
  | inl q ↦ rw (stop_none id s q) (stays refl refl)
  | inr (a, q) ↦ elim (Bool-cases (session_id a == id)) [
    | inl same ↦ elim (Bool-cases (s.accepts (channel a))) [
      | inl up ↦
          rw (stop_named id s a q same)
            (rw up (closes a q refl (ap some (sym ((eq_iff (session_id a) id).0 same))) refl))
      | inr down ↦ rw (stop_named id s a q same) (rw down (stays refl refl))
    ]
    | inr other ↦ rw (stop_other id s a q other) (stays refl refl)
  ]
]
