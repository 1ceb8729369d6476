-- ===== src/Lib.antt =====
-- The gateway of SpeechMesh: speechmeshd, with the device registry and the bridges behind it, and the
-- agents that connect to it.
--
-- Agents connect to the gateway and register (speechmeshd/src/agent.rs over device/src/registry.rs):
-- recognisers, which take recognition sessions, and devices, which play audio. Clients connect
-- (speechmeshd/src/server.rs) and run one session each, on a bridge that bridges/src chooses.
-- Controllers connect to the same server, to have audio played on a device.
--
-- - Common: names of the library, Boolean tests, lists and their parts, sorting, maps as lists of
--   entries, texts and their order.
-- - Core, Asr, Tts, Transport: the types of core/src/lib.rs, asr/src/lib.rs, tts/src/lib.rs and the
--   messages of transport/src. A session's id is a text; audio is a list of bytes; JSON values and
--   f32 numbers are type parameters.
-- - Device: device/src. Registry is the state behind the registry's lock, Router the routes to
--   endpoints.
-- - Bridges: bridges/src/error.rs, the events and commands of the bridges, the composite bridges, and
--   under Audio what bridges/src/asr/mod.rs and bridges/src/tts/mod.rs do with audio: modes and names
--   of formats, WAV files, uploads, chunks; under Mock the two mock bridges, bridges/src/asr/mock.rs
--   and bridges/src/tts/mock.rs, whose receiver of events may be dropped at any point.
-- - Gateway: AgentRegistry and handle_agent_connection of speechmeshd/src/agent.rs. A channel is a
--   number; is_open says which receivers exist, and log holds what was delivered, the newest first.
--   An operation is one function from a gateway to the next, with nothing of other connections in
--   between: so route_play_audio_start chooses the agent, registers the task and sends the start at
--   once. Gateway.Run has the steps under each lock instead, which may be of any calls in any order.
--   Where the loop of an agent's connection waits, what the others did meanwhile is an argument.
-- - Remote and LocalAgent: the two ends of a recognition on an agent, also in
--   speechmeshd/src/agent.rs: RemoteAgentAsrBridge at the gateway, and the handling of the gateway's
--   frames on the recogniser's machine.
-- - Server: a client's connection and the forwarding of its events in speechmeshd/src/server.rs, and
--   under Control the control endpoint. What the bridges answer is an argument. Counters on u64 wrap
--   around. A forwarding task returns at its first failed send: the client's writer takes a number of
--   messages, which is an argument, and is then gone (Common.Channel). A frame may be one that could
--   not be read; a close ends the frames.
-- - Player: speechmeshd/src/bin/speechmesh_agent/runtime.rs, the agent of a device that plays audio.
--   What its machine answers is an argument. Player.Broadcast follows a request from the controller
--   through the gateway to the player.
-- - Providers: speechmeshd/src/providers.rs, the installed recognition providers. A file is what its
--   read and its parse give. Store changes the state, Status lists it.
--
-- Loops are over lists of what arrives, and end with them. Two run on fuel: the printing of a number
-- (Common.Text), on one more than the number, of which each digit takes one; and the cutting of a list
-- into parts (Common.Slices), on the length of the list, of which each part takes one item or more. A
-- hash map is a list of entries, whose order stands for that of an iteration. Counts of chunks and
-- bytes of what is in memory are plain numbers, since they stay below 2^64.
--
-- base64 is a pair of functions, and a theorem that needs it says that decoding undoes encoding. The
-- writers of an agent's own connection take every frame.
--
-- Not modelled: sockets, JSON, timers, logging and process start; the bridges to external services
-- and processes; the connecting of the agents; speechmeshd/src/main.rs and the
-- other programs under speechmeshd/src/bin; sdks/rust, app/src/main.rs, and the code of other
-- languages.
mod Common
pub mod Core
pub mod Asr
pub mod Transport
pub mod Device
pub mod Bridges
pub mod Gateway
pub mod Server
pub mod Tts
pub mod Providers
pub mod Player
pub mod Remote
pub mod LocalAgent
