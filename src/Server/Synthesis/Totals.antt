-- ===== src/Server/Synthesis/Totals.antt =====
-- What a synthesis session tells its client at the end.
use speechmesh.Common.{
  ℕ, zero, suc, ◌+◌, ◌%◌, ◌^◌, String, Bool, true, false, ◌≡◌, refl, ap, ◌∙◌, Option, none, some,
  List, [], ◌∷◌, ◌++◌, arith, length, all,
}
use speechmesh.Common.Channel.{send, send_both}
use speechmesh.Common.Slices.{take}
use speechmesh.Core.{SessionId, new_error_info}
use speechmesh.Tts.{SynthesisInputKind, AudioChunk}
use speechmesh.Bridges.TtsEvents.{BridgeTtsEvent, audio, ended}
use speechmesh.Bridges.TtsEvents
use speechmesh.Transport.Server.{
  ServerMessage, tts_audio_delta, tts_audio_done, session_ended, error,
}
use speechmesh.Server.Recognition.{next_u64}
use speechmesh.Server.Synthesis.{
  TtsForwarder, new_tts_forwarder, count_chunk, audio_delta, audio_done, forward_tts_events,
}

-- The chunks of a session, and their bytes.
abbrev pub chunks : List BridgeTtsEvent → List AudioChunk
chunks [] = []
chunks (audio chunk ∷ es) = chunk ∷ chunks es
chunks (ended reason ∷ es) = chunks es
chunks (TtsEvents.error message ∷ es) = chunks es

abbrev pub bytes_of : List AudioChunk → ℕ
bytes_of [] = 0
bytes_of (c ∷ cs) = length c.bytes + bytes_of cs

abbrev pub goes_on : BridgeTtsEvent → Bool
goes_on (audio chunk) = true
goes_on (ended reason) = false
goes_on (TtsEvents.error message) = true

-- The numbers that a forwarder has after a number of chunks and of bytes.
abbrev Counts : ℕ → ℕ → TtsForwarder → Type 0
Counts k b s =
    (s.sequence ≡ k % 2 ^ 64) × (s.total_chunks ≡ k % 2 ^ 64) × (s.total_bytes ≡ b % 2 ^ 64)

add_mod : (a n l : ℕ) → a ≡ n % 2 ^ 64 → (a + l) % 2 ^ 64 ≡ (n + l) % 2 ^ 64
add_mod a n l e = omega (arith, e)

module _ (encode : List ℕ → String) (id : SessionId) (input_kind : SynthesisInputKind) where
  -- The last two messages of a session of `k` chunks with `b` bytes, with no number wrapped yet.
  abbrev pub last_two : ℕ → ℕ → ℕ → Option String → List ServerMessage
  last_two sequence k b reason =
      tts_audio_done id sequence
        (record { input_kind = input_kind; total_chunks = k; total_bytes = b })
      ∷ session_ended id reason
      ∷ []

  abbrev pub closing : ℕ → ℕ → Option String → List ServerMessage
  closing k b reason = last_two ((k + 1) % 2 ^ 64) (k % 2 ^ 64) (b % 2 ^ 64) reason

  -- The message for the chunk that follows `k` others.
  abbrev pub delta : ℕ → AudioChunk → ServerMessage
  delta k chunk = tts_audio_delta id ((k + 1) % 2 ^ 64) (record {
    chunk_id = (k + 1) % 2 ^ 64;
    audio_base64 = encode chunk.bytes;
    is_final = chunk.is_final;
    format = chunk.format;
  })

  -- The messages for some events with no end among them, after `k` chunks.
  abbrev pub relayed : ℕ → List BridgeTtsEvent → List ServerMessage
  relayed k [] = []
  relayed k (audio chunk ∷ es) = delta k chunk ∷ relayed (k + 1) es
  relayed k (ended reason ∷ es) = []
  relayed k (TtsEvents.error message ∷ es) =
      error none (some id) (new_error_info "provider_error" message) ∷ relayed k es

  closing_eq :
      (k k' b b' : ℕ) (reason : Option String)
      → k ≡ k'
      → b ≡ b'
      → closing k b reason ≡ closing k' b' reason
  closing_eq k k' b b' reason e f = cc

  done_eq :
      (s : TtsForwarder) (k b : ℕ) (reason : Option String)
      → Counts k b s
      → audio_done encode id input_kind s ∷ session_ended id reason ∷ [] ≡ closing k b reason
  done_eq s k b reason (q, c, t) =
      let e : next_u64 s.sequence ≡ (k + 1) % 2 ^ 64 = add_mod _ k 1 q in rw (e, c, t) refl

  delta_eq :
      (s : TtsForwarder) (k b : ℕ) (chunk : AudioChunk)
      → Counts k b s
      → audio_delta encode id input_kind chunk (count_chunk chunk s) ≡ delta k chunk
  delta_eq s k b chunk (q, c, t) =
      let e : next_u64 s.sequence ≡ (k + 1) % 2 ^ 64 = add_mod _ k 1 q in
      let f : next_u64 s.total_chunks ≡ (k + 1) % 2 ^ 64 = add_mod _ k 1 c in rw (e, f) refl

  closes :
      (room : ℕ) (es rest : List BridgeTtsEvent) (reason : Option String) (s : TtsForwarder)
      (k b : ℕ)
      → all goes_on es ≡ true
      → Counts k b s
      → forward_tts_events encode id input_kind room (es ++ ended reason ∷ rest) s
        ≡ take room
            (relayed k es ++ closing (k + length (chunks es)) (b + bytes_of (chunks es)) reason)
  unfolding forward_tts_events send take
  closes room [] rest reason s k b h counts =
      send_both room (audio_done encode id input_kind s) (session_ended id reason)
      ∙ ap (take room) (
          done_eq s k b reason counts
          ∙ closing_eq k (k + 0) b (b + 0) reason (omega arith) (omega arith))
  closes zero (audio chunk ∷ es) rest reason s k b h counts = refl
  closes (suc room) (audio chunk ∷ es) rest reason s k b h (q, c, t) =
      ap
        (λ m.
          m
          ∷ forward_tts_events encode id input_kind room (es ++ ended reason ∷ rest)
              (count_chunk chunk s))
        (delta_eq s k b chunk (q, c, t))
      ∙ ap (λ l. delta k chunk ∷ l)
          (closes room es rest reason (count_chunk chunk s) (k + 1) (b + length chunk.bytes) h
              (add_mod _ k 1 q, add_mod _ k 1 c, add_mod _ b _ t)
            ∙ ap (λ l. take room (relayed (k + 1) es ++ l))
                (closing_eq (k + 1 + length (chunks es)) (k + length (chunks (audio chunk ∷ es)))
                  (b + length chunk.bytes + bytes_of (chunks es))
                  (b + (length chunk.bytes + bytes_of (chunks es))) reason (omega arith)
                  (omega arith)))
  closes room (ended r ∷ es) rest reason s k b h counts = absurd (ground (arith, h))
  closes zero (TtsEvents.error message ∷ es) rest reason s k b h counts = refl
  closes (suc room) (TtsEvents.error message ∷ es) rest reason s k b h counts =
      ap (λ l. error none (some id) (new_error_info "provider_error" message) ∷ l)
        (closes room es rest reason s k b h counts)

  -- Where no end stands among some events of a synthesis session and one follows them, the client
  -- is sent the chunks and the errors among them in order, each chunk with its place among the
  -- chunks as sequence number and id; then the totals of the chunks and bytes, with the next
  -- sequence number; and the end; all numbers modulo 2^64. Nothing is sent for what comes after
  -- the end. If the client's writer takes fewer messages than those, it receives the first of
  -- them.
  pub forward_tts_events-closing :
      (room : ℕ) (es rest : List BridgeTtsEvent) (reason : Option String)
      → all goes_on es ≡ true
      → forward_tts_events encode id input_kind room (es ++ ended reason ∷ rest) new_tts_forwarder
        ≡ take room (relayed 0 es ++ closing (length (chunks es)) (bytes_of (chunks es)) reason)
  forward_tts_events-closing room es rest reason h =
      closes room es rest reason new_tts_forwarder 0 0 h (omega arith, omega arith, omega arith)
      ∙ ap (λ l. take room (relayed 0 es ++ l))
          (closing_eq (0 + length (chunks es)) (length (chunks es)) (0 + bytes_of (chunks es))
            (bytes_of (chunks es)) reason (omega arith) (omega arith))
