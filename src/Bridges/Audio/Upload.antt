-- ===== src/Bridges/Audio/Upload.antt =====
-- What the recogniser over HTTP uploads: helpers of bridges/src/asr/mod.rs.
use speechmesh.Common.{ℕ, ◌≡◌, ◌≢◌, refl, ◌<◌, ◌^◌, ◌⧺◌, String, List}
use speechmesh.Core.{AudioEncoding, AudioFormat, pcm_s16le, pcm_f32le, opus, mp3, aac, flac, wav}
use speechmesh.Bridges.Error.{BridgeError, unavailable, Result, ok, err}
use speechmesh.Bridges.Audio.Wav.{encode_pcm_s16le_wav}
use speechmesh.Bridges.Audio.Wav.Reader.{Encodes, encode_pcm_s16le_wav-Encodes}

unfoldable pub audio_encoding_name : AudioEncoding → String
audio_encoding_name pcm_s16le = "pcm_s16le"
audio_encoding_name pcm_f32le = "pcm_f32le"
audio_encoding_name opus = "opus"
audio_encoding_name mp3 = "mp3"
audio_encoding_name aac = "aac"
audio_encoding_name flac = "flac"
audio_encoding_name wav = "wav"

abbrev no_input : AudioEncoding → BridgeError
no_input encoding =
    unavailable ("MiniMax ASR does not support " ⧺ audio_encoding_name encoding ⧺ " input yet")

abbrev mime_type : AudioEncoding → Result String
mime_type pcm_s16le = ok "audio/wav"
mime_type mp3 = ok "audio/mpeg"
mime_type flac = ok "audio/flac"
mime_type wav = ok "audio/wav"
mime_type other = err (no_input other)

unfoldable pub audio_mime_type : AudioFormat → Result String
audio_mime_type format = mime_type format.encoding

abbrev upload : AudioEncoding → ℕ → ℕ → List ℕ → Result (List ℕ)
upload pcm_s16le rate channels audio = encode_pcm_s16le_wav audio rate channels
upload mp3 rate channels audio = ok audio
upload flac rate channels audio = ok audio
upload wav rate channels audio = ok audio
upload other rate channels audio = err (no_input other)

unfoldable pub encode_minimax_upload_audio : AudioFormat → List ℕ → Result (List ℕ)
encode_minimax_upload_audio format audio =
    upload format.encoding format.sample_rate_hz format.channels audio

abbrev filename : AudioEncoding → String
filename pcm_s16le = "audio.wav"
filename mp3 = "audio.mp3"
filename flac = "audio.flac"
filename wav = "audio.wav"
filename _ = "audio.bin"

unfoldable pub default_audio_filename : AudioFormat → String
default_audio_filename format = filename format.encoding

-- The containers that are uploaded as they are, with the media type and the extension of each.
pub data IsContainer : AudioEncoding → String → String → Type 0 where
  mpeg : IsContainer mp3 "audio/mpeg" ".mp3"
  lossless : IsContainer flac "audio/flac" ".flac"
  riff : IsContainer wav "audio/wav" ".wav"

-- What becomes of some audio: its media type, its file name and what is uploaded.
pub data Uploads (format : AudioFormat) (audio : List ℕ)
    : Result String → String → Result (List ℕ) → Type 0 where
  as_wav :
      (written : Result (List ℕ))
      → format.encoding ≡ pcm_s16le
      → Encodes audio format.sample_rate_hz format.channels written
      → Uploads format audio (ok "audio/wav") "audio.wav" written
  unchanged :
      (kind extension : String)
      → IsContainer format.encoding kind extension
      → Uploads format audio (ok kind) ("audio" ⧺ extension) (ok audio)
  refused :
      (format.encoding ≢ pcm_s16le)
      → ((kind extension : String) → ¬ IsContainer format.encoding kind extension)
      → Uploads format audio
          (err (no_input format.encoding))
          "audio.bin"
          (err (no_input format.encoding))

-- For a rate of 32 bits: 16-bit PCM is uploaded as a WAV file `audio.wav` of type `audio/wav`, or
-- with the error of writing one; MP3, FLAC and WAV are uploaded unchanged as `audio.mp3`,
-- `audio.flac` and `audio.wav`, with the types `audio/mpeg`, `audio/flac` and `audio/wav`; every
-- other encoding is refused, for its type and for its upload with the same error, which names it,
-- and its file name is `audio.bin`.
pub encode_minimax_upload_audio-Uploads :
    (encoding : AudioEncoding) (rate channels : ℕ) (audio : List ℕ)
    → rate < 2 ^ 32
    → let format : AudioFormat = record {
      encoding = encoding;
      sample_rate_hz = rate;
      channels = channels;
    } in
      Uploads format audio
        (audio_mime_type format)
        (default_audio_filename format)
        (encode_minimax_upload_audio format audio)
unfolding audio_mime_type encode_minimax_upload_audio default_audio_filename audio_encoding_name
encode_minimax_upload_audio-Uploads pcm_s16le rate channels audio h =
    as_wav _ refl (encode_pcm_s16le_wav-Encodes audio rate channels h)
encode_minimax_upload_audio-Uploads pcm_f32le rate channels audio h =
    refused (λ e. cc) (λ kind extension c. elim c [ ])
encode_minimax_upload_audio-Uploads opus rate channels audio h =
    refused (λ e. cc) (λ kind extension c. elim c [ ])
encode_minimax_upload_audio-Uploads aac rate channels audio h =
    refused (λ e. cc) (λ kind extension c. elim c [ ])
encode_minimax_upload_audio-Uploads mp3 rate channels audio h = unchanged _ _ mpeg
encode_minimax_upload_audio-Uploads flac rate channels audio h = unchanged _ _ lossless
encode_minimax_upload_audio-Uploads wav rate channels audio h = unchanged _ _ riff
