-- ===== src/Bridges/AsrEvents.antt =====
-- bridges/src/asr/mod.rs: the events of a recognition session, and the commands to it. Audio is a
-- list of bytes.
use speechmesh.Common.{ℕ, String, Option, List}
use speechmesh.Asr.{Transcript}

pub data BridgeAsrEvent : Type 0 where
  partial : String → BridgeAsrEvent
  final : Transcript → BridgeAsrEvent
  ended : Option String → BridgeAsrEvent
  error : String → BridgeAsrEvent

pub data BridgeCommand : Type 0 where
  push_audio : List ℕ → BridgeCommand
  commit stop : BridgeCommand
