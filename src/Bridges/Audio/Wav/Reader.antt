-- ===== src/Bridges/Audio/Wav/Reader.antt =====
-- A reader of WAV files, and what encode_pcm_s16le_wav of bridges/src/asr/mod.rs writes for it.
use speechmesh.Common.{
  ℕ, ◌+◌, ◌-◌, ◌*◌, ◌^◌, ◌≤◌, ◌<◌, ◌≡◌, refl, inl, inr, List, Option, none, some, ltb, length,
  and_then as ◌>>=◌, arith, Bool-cases,
}
use mathlib.Core.List.{append-nil}
use speechmesh.Common.Slices.{concat}
use speechmesh.Bridges.Error.{protocol, Result, ok, err}
use speechmesh.Bridges.Audio.Bytes.{
  checked_mul, checked_add, to_le_bytes, read_le, read_exactly, read_le-to_le_bytes,
  checked_mul_lem, checked_mul-over,
}
use speechmesh.Bridges.Audio.Wav.{
  riff_tag, wave_tag, fmt_tag, data_tag, wav_bytes, encode_pcm_s16le_wav,
}

-- The fields of a file with one format chunk and one data chunk.
pub record WavFile : Type 0 where
  pub riff_size : ℕ
  pub format_size : ℕ
  pub format_tag : ℕ
  pub channels : ℕ
  pub sample_rate_hz : ℕ
  pub byte_rate : ℕ
  pub block_align : ℕ
  pub bits_per_sample : ℕ
  pub data_size : ℕ
  pub samples : List ℕ

unfoldable pub read_wav : List ℕ → Option WavFile
unfolding read_le read_exactly
read_wav b0 = do
  b1 ← read_exactly riff_tag b0
  (riff_size, b2) ← read_le 4 b1
  b3 ← read_exactly wave_tag b2
  b4 ← read_exactly fmt_tag b3
  (format_size, b5) ← read_le 4 b4
  (format_tag, b6) ← read_le 2 b5
  (channels, b7) ← read_le 2 b6
  (sample_rate_hz, b8) ← read_le 4 b7
  (byte_rate, b9) ← read_le 4 b8
  (block_align, b10) ← read_le 2 b9
  (bits_per_sample, b11) ← read_le 2 b10
  b12 ← read_exactly data_tag b11
  (data_size, samples) ← read_le 4 b12
  some (record {
    riff_size = riff_size;
    format_size = format_size;
    format_tag = format_tag;
    channels = channels;
    sample_rate_hz = sample_rate_hz;
    byte_rate = byte_rate;
    block_align = block_align;
    bits_per_sample = bits_per_sample;
    data_size = data_size;
    samples = samples;
  })

-- The file that is written has a header that says the truth about it.
abbrev pub file_of : List ℕ → ℕ → ℕ → WavFile
file_of pcm sample_rate_hz channels = record {
  riff_size = 36 + length pcm;
  format_size = 16;
  format_tag = 1;
  channels = channels;
  sample_rate_hz = sample_rate_hz;
  byte_rate = sample_rate_hz * channels * 2;
  block_align = channels * 2;
  bits_per_sample = 16;
  data_size = length pcm;
  samples = pcm;
}

read_wav-wav_bytes :
    (pcm : List ℕ) (rate channels : ℕ)
    → 36 + length pcm < 2 ^ 32
    → rate < 2 ^ 32
    → rate * channels * 2 < 2 ^ 32
    → channels * 2 < 2 ^ 16
    → read_wav (wav_bytes pcm rate channels (rate * channels * 2) (channels * 2) (36 + length pcm))
      ≡ some (file_of pcm rate channels)
unfolding read_wav concat read_exactly
read_wav-wav_bytes pcm rate channels fits hr hb ha =
    rw
      (
        read_wav,
        read_le-to_le_bytes 4 (36 + length pcm) _ (omega (arith, fits)),
        read_le-to_le_bytes 4 16 _ (omega arith),
        read_le-to_le_bytes 2 1 _ (omega arith),
        read_le-to_le_bytes 2 channels _ (omega (arith, ha)),
        read_le-to_le_bytes 4 rate _ (omega (arith, hr)),
        read_le-to_le_bytes 4 (rate * channels * 2) _ (omega (arith, hb)),
        read_le-to_le_bytes 2 (channels * 2) _ (omega (arith, ha)),
        read_le-to_le_bytes 2 16 _ (omega arith),
        read_le-to_le_bytes 4 (length pcm) _ (omega (arith, fits)),
        append-nil,
      )
      refl

-- What is written, or why not.
pub data Encodes (pcm : List ℕ) (rate channels : ℕ) : Result (List ℕ) → Type 0 where
  wrapped :
      (wav : List ℕ)
      → length pcm + 44 < 2 ^ 32
      → rate * channels * 2 < 2 ^ 32
      → channels * 2 < 2 ^ 16
      → length wav ≡ 44 + length pcm
      → read_wav wav ≡ some (file_of pcm rate channels)
      → Encodes pcm rate channels (ok wav)
  too_large :
      2 ^ 32 ≤ length pcm + 44
      → Encodes pcm rate channels (err (protocol "PCM payload too large to wrap in WAV"))
  too_fast :
      length pcm + 44 < 2 ^ 32
      → 2 ^ 32 ≤ rate * channels * 2
      → Encodes pcm rate channels (err (protocol "invalid WAV byte rate"))
  too_wide :
      length pcm + 44 < 2 ^ 32
      → rate * channels * 2 < 2 ^ 32
      → 2 ^ 16 ≤ channels * 2
      → Encodes pcm rate channels (err (protocol "invalid WAV block align"))

length-wav_bytes :
    (pcm : List ℕ) (rate channels byte_rate block_align riff_size : ℕ)
    → length (wav_bytes pcm rate channels byte_rate block_align riff_size) ≡ 44 + length pcm
unfolding concat to_le_bytes
length-wav_bytes pcm rate channels byte_rate block_align riff_size = rw append-nil (omega arith)

abbrev byte_rate_of : ℕ → ℕ → Option ℕ
byte_rate_of rate channels =
    ◌>>=◌ (checked_mul 32 rate channels) λ (value : ℕ). checked_mul 32 value 2

byte_rate_fits :
    (rate channels : ℕ)
    → rate * channels * 2 < 2 ^ 32
    → byte_rate_of rate channels ≡ some (rate * channels * 2)
unfolding checked_mul
byte_rate_fits rate channels h = ground (arith, h)

byte_rate_over :
    (rate channels : ℕ) → 2 ^ 32 ≤ rate * channels * 2 → byte_rate_of rate channels ≡ none
unfolding checked_mul
byte_rate_over rate channels h = ground (arith, h)

riff_size_fits : (n : ℕ) → n + 44 < 2 ^ 32 → checked_add 32 36 n ≡ some (36 + n)
unfolding checked_add
riff_size_fits n h = ground (arith, h)

-- For a rate of 32 bits, samples are written as 44 bytes and the samples, from which a reader of
-- WAV files gets the samples back, with the rate, the channels and the sizes; or they are 2^32 -
-- 44 bytes or more, or else the byte rate does not fit 32 bits, or else the block size does not
-- fit 16 bits, and the error says which.
pub encode_pcm_s16le_wav-Encodes :
    (pcm : List ℕ) (rate channels : ℕ)
    → rate < 2 ^ 32
    → Encodes pcm rate channels (encode_pcm_s16le_wav pcm rate channels)
unfolding encode_pcm_s16le_wav
encode_pcm_s16le_wav-Encodes pcm rate channels hr =
    elim (Bool-cases (ltb (2 ^ 32 - 1 - 44) (length pcm))) [
      | inl large ↦ rw (encode_pcm_s16le_wav, large) (too_large (ground (arith, large)))
      | inr small ↦
          let fits : length pcm + 44 < 2 ^ 32 = ground (arith, small) in
          elim (Bool-cases (ltb (rate * channels * 2) (2 ^ 32))) [
            | inr fast ↦
                let over : 2 ^ 32 ≤ rate * channels * 2 = ground (arith, fast) in
                rw (encode_pcm_s16le_wav, small, byte_rate_over rate channels over)
                  (too_fast fits over)
            | inl slow ↦
                let rate_fits : rate * channels * 2 < 2 ^ 32 = ground (arith, slow) in
                elim (Bool-cases (ltb (channels * 2) (2 ^ 16))) [
                  | inr wide ↦
                      let over : 2 ^ 16 ≤ channels * 2 = ground (arith, wide) in
                      rw
                        (
                          encode_pcm_s16le_wav,
                          small,
                          byte_rate_fits rate channels rate_fits,
                          checked_mul-over 16 channels 2 over,
                        )
                        (too_wide fits rate_fits over)
                  | inl narrow ↦
                      let align_fits : channels * 2 < 2 ^ 16 = ground (arith, narrow) in
                      rw
                        (
                          encode_pcm_s16le_wav,
                          small,
                          byte_rate_fits rate channels rate_fits,
                          checked_mul_lem 16 channels 2 align_fits,
                          riff_size_fits (length pcm) fits,
                        )
                        (wrapped _ fits rate_fits align_fits
                          (length-wav_bytes pcm rate channels (rate * channels * 2) (channels * 2)
                            (36 + length pcm))
                          (read_wav-wav_bytes pcm rate channels (omega (arith, fits)) hr rate_fits
                            align_fits))
                ]
          ]
    ]
