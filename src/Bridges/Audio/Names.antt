-- ===== src/Bridges/Audio/Names.antt =====
-- Between the names of formats and the formats: bridges/src/tts/mod.rs.
use speechmesh.Common.{◌≡◌, refl, String, some}
use speechmesh.Common.Text.{trim, to_ascii_lowercase}
use speechmesh.Core.{AudioEncoding, pcm_s16le, pcm_f32le, opus, mp3, aac, flac, wav}
use speechmesh.Bridges.Error.{ok}
use speechmesh.Bridges.Audio.Modes.{normalize_output_format_name, audio_encoding_from_name}

-- A format's name is read as the format.
pub audio_encoding_from_name-normalize_output_format_name :
    (encoding : AudioEncoding) (fallback name : String)
    → normalize_output_format_name (some encoding) fallback ≡ ok name
    → audio_encoding_from_name name ≡ ok encoding
unfolding normalize_output_format_name audio_encoding_from_name trim to_ascii_lowercase
audio_encoding_from_name-normalize_output_format_name wav fallback name h =
    let e : "wav" ≡ name = cc in rw (← e) refl
audio_encoding_from_name-normalize_output_format_name mp3 fallback name h =
    let e : "mp3" ≡ name = cc in rw (← e) refl
audio_encoding_from_name-normalize_output_format_name flac fallback name h =
    let e : "flac" ≡ name = cc in rw (← e) refl
audio_encoding_from_name-normalize_output_format_name pcm_s16le fallback name h = cc
audio_encoding_from_name-normalize_output_format_name pcm_f32le fallback name h = cc
audio_encoding_from_name-normalize_output_format_name opus fallback name h = cc
audio_encoding_from_name-normalize_output_format_name aac fallback name h = cc
