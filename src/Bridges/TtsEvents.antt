-- ===== src/Bridges/TtsEvents.antt =====
-- bridges/src/tts/mod.rs: the events of a synthesis session, and the commands to it.
use speechmesh.Common.{String, Option}
use speechmesh.Tts.{AudioChunk}

pub data BridgeTtsEvent : Type 0 where
  audio : AudioChunk → BridgeTtsEvent
  ended : Option String → BridgeTtsEvent
  error : String → BridgeTtsEvent

pub data BridgeTtsCommand : Type 0 where
  append_input : String → BridgeTtsCommand
  commit stop : BridgeTtsCommand
