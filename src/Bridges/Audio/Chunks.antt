-- ===== src/Bridges/Audio/Chunks.antt =====
-- The cutting of audio into chunks: emit_audio_chunks of bridges/src/tts/mod.rs. The receiver takes
-- `room` events and is closed then.
pub mod Cuts
use speechmesh.Common.{
  ℕ, zero, suc, ◌+◌, ◌-◌, ◌*◌, ◌/◌, ◌%◌, ◌≤◌, ◌<◌, ◌≡◌, refl, Bool, true, false, Option, none, some,
  List, [], ◌∷◌, ◌++◌, if◌then◌else◌, ltb, beq, length, map, arith,
}
use speechmesh.Common.Slices.{chunks}
use speechmesh.Core.{AudioFormat}
use speechmesh.Tts.{AudioChunk}
use speechmesh.Bridges.Error.{BridgeError, protocol, disconnected, Result, ok, err}
use speechmesh.Bridges.TtsEvents.{BridgeTtsEvent, audio}

unfoldable pub div_ceil : ℕ → ℕ → ℕ
div_ceil a b = if ltb 0 (a % b) then a / b + 1 else a / b

-- The body of the loop, before the sending.
abbrev chunk_at : ℕ → Option AudioFormat → ℕ → List ℕ → AudioChunk
chunk_at total_chunks output_format index part = record {
  bytes = part;
  sequence = index + 1;
  is_final = beq (index + 1) total_chunks;
  format = if beq index 0 then output_format else none;
}

-- What was received, and what the function returns.
abbrev pub Emitted : Type 0
Emitted = List BridgeTtsEvent × Result {0} Unit

abbrev received : BridgeTtsEvent → Emitted → Emitted
received event (events, result) = (event ∷ events, result)

-- The loop, with what the receiver got.
unfoldable pub send_parts : ℕ → Option AudioFormat → ℕ → ℕ → List (List ℕ) → Emitted
send_parts total_chunks output_format room index [] = ([], ok tt)
send_parts total_chunks output_format zero index (part ∷ parts) =
    ([], err (disconnected "bridge event channel closed"))
send_parts total_chunks output_format (suc room) index (part ∷ parts) =
    received (audio (chunk_at total_chunks output_format index part))
      (send_parts total_chunks output_format room (index + 1) parts)

abbrev max : ℕ → ℕ → ℕ
max a b = if ltb a b then b else a

unfoldable pub emit_audio_chunks : ℕ → List ℕ → Option AudioFormat → ℕ → Emitted
unfolding chunks div_ceil send_parts
emit_audio_chunks room [] output_format chunk_size_bytes =
    ([], err (protocol "provider returned empty audio"))
emit_audio_chunks room (b ∷ bytes) output_format chunk_size_bytes =
    send_parts (max 1 (div_ceil (length (b ∷ bytes)) chunk_size_bytes)) output_format room 0
      (chunks chunk_size_bytes (b ∷ bytes))
