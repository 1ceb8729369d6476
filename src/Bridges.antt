-- ===== src/Bridges.antt =====
-- The bridges crate: what stands between the gateway and the providers.
pub mod Error
pub mod AsrEvents
pub mod Binding
pub mod AsrComposite
pub mod TtsComposite
pub mod TtsEvents
pub mod Audio
pub mod Mock
pub mod Examples
