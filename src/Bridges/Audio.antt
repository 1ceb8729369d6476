-- ===== src/Bridges/Audio.antt =====
-- How bridges/src/asr/mod.rs and bridges/src/tts/mod.rs handle audio and the options about it.

pub mod Bytes
pub mod Chunks
pub mod Wav
pub mod Modes
pub mod Upload
pub mod Names
pub mod Examples
