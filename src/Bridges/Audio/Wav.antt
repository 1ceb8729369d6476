-- ===== src/Bridges/Audio/Wav.antt =====
-- Raw samples as a WAV file: encode_pcm_s16le_wav of bridges/src/asr/mod.rs. A rate is a u32, a
-- number of channels a u16, and a byte string is the list of its bytes.
pub mod Reader
use speechmesh.Common.{
  String, ℕ, ◌+◌, ◌-◌, ◌^◌, List, [], ◌∷◌, Option, none, some, if◌then◌else◌, ltb, length, and_then,
}
use speechmesh.Common.Slices.{concat}
use speechmesh.Bridges.Error.{protocol, Result, ok, err}
use speechmesh.Bridges.Audio.Bytes.{checked_mul, checked_add, to_le_bytes}

-- `b"RIFF"` and the other byte strings
abbrev pub riff_tag : List ℕ
riff_tag = 82 ∷ 73 ∷ 70 ∷ 70 ∷ []

abbrev pub wave_tag : List ℕ
wave_tag = 87 ∷ 65 ∷ 86 ∷ 69 ∷ []

abbrev pub fmt_tag : List ℕ
fmt_tag = 102 ∷ 109 ∷ 116 ∷ 32 ∷ []

abbrev pub data_tag : List ℕ
data_tag = 100 ∷ 97 ∷ 116 ∷ 97 ∷ []

-- What is written once the sizes are known.
abbrev pub wav_bytes : List ℕ → ℕ → ℕ → ℕ → ℕ → ℕ → List ℕ
wav_bytes pcm sample_rate_hz channels byte_rate block_align riff_size = concat (
    riff_tag
    ∷ to_le_bytes 4 riff_size
    ∷ wave_tag
    ∷ fmt_tag
    ∷ to_le_bytes 4 16
    ∷ to_le_bytes 2 1
    ∷ to_le_bytes 2 channels
    ∷ to_le_bytes 4 sample_rate_hz
    ∷ to_le_bytes 4 byte_rate
    ∷ to_le_bytes 2 block_align
    ∷ to_le_bytes 2 16
    ∷ data_tag
    ∷ to_le_bytes 4 (length pcm)
    ∷ pcm
    ∷ [])

-- `ok_or_else` and the `?` after it.
abbrev pub or_fail {ℓ κ} : {A : Type ℓ} {B : Type κ} → Option A → String → (A → Result B) → Result B
or_fail none message next = err (protocol message)
or_fail (some a) message next = next a

unfoldable pub encode_pcm_s16le_wav : List ℕ → ℕ → ℕ → Result (List ℕ)
unfolding checked_mul checked_add
encode_pcm_s16le_wav pcm sample_rate_hz channels =
    if ltb (2 ^ 32 - 1 - 44) (length pcm)
    then err (protocol "PCM payload too large to wrap in WAV")
    else or_fail
        (and_then (checked_mul 32 sample_rate_hz channels) λ (value : ℕ). checked_mul 32 value 2)
        "invalid WAV byte rate"
        λ (byte_rate : ℕ).
          or_fail (checked_mul 16 channels 2) "invalid WAV block align" λ (block_align : ℕ).
            or_fail (checked_add 32 36 (length pcm)) "invalid WAV size" λ (riff_size : ℕ).
              ok (wav_bytes pcm sample_rate_hz channels byte_rate block_align riff_size)
