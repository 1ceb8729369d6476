-- ===== src/Server/Synthesis.antt =====
-- The events of a synthesis session as a client gets them: the task that `TtsStart` spawns in
-- speechmeshd/src/server.rs. The counters are u64s, and `encode` is the base64 encoder.
pub mod Totals
use speechmesh.Common.{
  ℕ, ◌+◌, ◌%◌, ◌^◌, String, Bool, true, false, ◌≡◌, refl, Option, none, some, List, [], ◌∷◌, arith,
  length, if◌then◌else◌, ltb, ◌<◌,
}
use speechmesh.Common.Channel.{send}
use speechmesh.Core.{SessionId, new_error_info}
use speechmesh.Tts.{SynthesisInputKind, AudioChunk}
use speechmesh.Bridges.TtsEvents.{BridgeTtsEvent, audio, ended}
use speechmesh.Bridges.TtsEvents
use speechmesh.Transport.Server.{
  ServerMessage, tts_audio_delta, tts_audio_done, session_ended, error,
}
use speechmesh.Server.Recognition.{next_u64}

pub record TtsForwarder : Type 0 where
  pub sequence : ℕ
  pub total_chunks : ℕ
  pub total_bytes : ℕ

abbrev pub new_tts_forwarder : TtsForwarder
new_tts_forwarder = record { sequence = 0; total_chunks = 0; total_bytes = 0 }

abbrev pub count_chunk : AudioChunk → TtsForwarder → TtsForwarder
count_chunk chunk s = record {
  sequence = next_u64 s.sequence;
  total_chunks = next_u64 s.total_chunks;
  total_bytes = (s.total_bytes + length chunk.bytes) % 2 ^ 64;
}

module _ (encode : List ℕ → String) (session_id : SessionId) (input_kind : SynthesisInputKind) where
  abbrev pub audio_delta : AudioChunk → TtsForwarder → ServerMessage
  audio_delta chunk s = tts_audio_delta session_id s.sequence (record {
    chunk_id = s.total_chunks;
    audio_base64 = encode chunk.bytes;
    is_final = chunk.is_final;
    format = chunk.format;
  })

  abbrev pub audio_done : TtsForwarder → ServerMessage
  audio_done s = tts_audio_done session_id (next_u64 s.sequence) (record {
    input_kind = input_kind;
    total_chunks = s.total_chunks;
    total_bytes = s.total_bytes;
  })

  -- The whole loop: what the client's writer receives, which takes `room` messages and is then gone.
  unfoldable pub forward_tts_events : ℕ → List BridgeTtsEvent → TtsForwarder → List ServerMessage
  unfolding send
  forward_tts_events room [] s = []
  forward_tts_events room (audio chunk ∷ es) s =
      let s' = count_chunk chunk s in
      send room (audio_delta chunk s') (λ left. forward_tts_events left es s')
  forward_tts_events room (ended reason ∷ es) s =
      send room (audio_done s) (λ left. send left (session_ended session_id reason) (λ _. []))
  forward_tts_events room (TtsEvents.error message ∷ es) s =
      send room (error none (some session_id) (new_error_info "provider_error" message))
        (λ left. forward_tts_events left es s)
