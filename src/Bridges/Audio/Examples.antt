-- ===== src/Bridges/Audio/Examples.antt =====
-- A short recording: five bytes, sent in chunks of two, and four bytes as a WAV file.
use speechmesh.Common.{
  ℕ, ◌≡◌, refl, some, List, [], ◌∷◌, map, if◌then◌else◌, ltb, length, arith, false,
}
use speechmesh.Core.{AudioFormat, pcm_s16le, mp3}
use speechmesh.Tts.{AudioChunk}
use speechmesh.Bridges.Error.{disconnected, ok, err}
use speechmesh.Bridges.TtsEvents.{audio}
use speechmesh.Common.Slices.{take}
use speechmesh.Bridges.Audio.Chunks.{emit_audio_chunks}
use speechmesh.Bridges.Audio.Chunks.Cuts.{Cuts, emit_audio_chunks-Cuts}
use speechmesh.Bridges.Audio.Wav.{encode_pcm_s16le_wav}
use speechmesh.Bridges.Audio.Wav.Reader.{Encodes, encode_pcm_s16le_wav-Encodes}
use speechmesh.Bridges.Audio.Upload.{
  audio_mime_type, default_audio_filename, encode_minimax_upload_audio, Uploads,
  encode_minimax_upload_audio-Uploads,
}

abbrev speech : List ℕ
speech = 1 ∷ 2 ∷ 3 ∷ 4 ∷ 5 ∷ []

abbrev as_mp3 : AudioFormat
as_mp3 = record { encoding = mp3; sample_rate_hz = 24_000; channels = 1 }

-- The second of three chunks is not received.
one_chunk : emit_audio_chunks 1 speech (some as_mp3) 2 ≡ (
  audio (record { bytes = 1 ∷ 2 ∷ []; sequence = 1; is_final = false; format = some as_mp3 }) ∷ [],
  err (disconnected "bridge event channel closed"),
)
unfolding emit_audio_chunks
one_chunk = refl

emit_audio_chunks-Cuts_example :
    (cs : List AudioChunk) × Cuts 2 1 (some as_mp3) speech cs
    × (emit_audio_chunks 1 speech (some as_mp3) 2 ≡ (
      map audio (take 1 cs),
      if ltb 1 (length cs) then err (disconnected "bridge event channel closed") else ok tt,
    ))
emit_audio_chunks-Cuts_example =
    emit_audio_chunks-Cuts 1 speech (some as_mp3) 2 (omega arith) (omega arith)

encode_pcm_s16le_wav-Encodes_example :
    Encodes speech 16_000 1 (encode_pcm_s16le_wav speech 16_000 1)
encode_pcm_s16le_wav-Encodes_example = encode_pcm_s16le_wav-Encodes speech 16_000 1 (omega arith)

abbrev stereo : AudioFormat
stereo = record { encoding = pcm_s16le; sample_rate_hz = 16_000; channels = 2 }

encode_minimax_upload_audio-Uploads_example :
    Uploads stereo speech (ok "audio/wav") "audio.wav" (encode_minimax_upload_audio stereo speech)
unfolding audio_mime_type default_audio_filename
encode_minimax_upload_audio-Uploads_example =
    encode_minimax_upload_audio-Uploads pcm_s16le 16_000 2 speech (omega arith)
