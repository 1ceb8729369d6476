-- ===== src/Bridges/Mock.antt =====
-- The mock bridges, which answer without a provider: bridges/src/asr/mock.rs and
-- bridges/src/tts/mock.rs. The receiver of a session's events takes some number of them and is
-- then dropped, and the commands of a session end when its handle is dropped.
pub mod Asr
pub mod Tts
pub mod Events
pub mod Examples
use speechmesh.Common.{Option, some, none}

-- `unwrap_or`
abbrev pub unwrap_or {ℓ} : {A : Type ℓ} → Option A → A → A
unwrap_or none a = a
unwrap_or (some b) a = b
