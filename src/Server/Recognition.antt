-- ===== src/Server/Recognition.antt =====
-- The events of a recognition session as a client gets them: the task that `AsrStart` spawns in
-- speechmeshd/src/server.rs, and `compute_delta`. The counters are u64s.
pub mod Deltas
use speechmesh.Common.{
  ℕ, ◌+◌, ◌%◌, ◌^◌, String, Bool, true, false, Option, none, some, List, [], ◌∷◌, map, and_then,
  if◌then◌else◌, ◌==◌,
}
use speechmesh.Common.Channel.{send}
use speechmesh.Common.Text.{is_empty, strip_prefix}
use speechmesh.Core.{SessionId, new_error_info}
use speechmesh.Asr.{Transcript, TranscriptSegment}
use speechmesh.Bridges.AsrEvents.{BridgeAsrEvent, partial, final, ended}
use speechmesh.Bridges.AsrEvents
use speechmesh.Transport.Server.{
  AsrWordPayload, AsrResultPayload, ServerMessage, asr_result, session_ended, error,
}

unfoldable pub compute_delta : String → String → Option String
compute_delta previous current =
    if current == previous
    then none
    else if is_empty previous
    then some current
    else elim (strip_prefix previous current) [ some suffix ↦ some suffix | none ↦ some current ]

-- What the task keeps between two events.
pub record AsrForwarder : Type 0 where
  pub sequence : ℕ
  pub revision : ℕ
  pub previous_text : String

abbrev pub next_u64 : ℕ → ℕ
next_u64 n = (n + 1) % 2 ^ 64

abbrev first : List TranscriptSegment → Option TranscriptSegment
first [] = none
first (s ∷ ss) = some s

abbrev last : List TranscriptSegment → Option TranscriptSegment
last [] = none
last (s ∷ []) = some s
last (s ∷ t ∷ ss) = last (t ∷ ss)

abbrev word : TranscriptSegment → AsrWordPayload
word s = record { text = s.text; start_ms = s.start_ms; end_ms = s.end_ms; is_final = s.is_final }

abbrev pub partial_result : AsrForwarder → String → AsrResultPayload
unfolding compute_delta
partial_result s text = record {
  segment_id = 0;
  revision = next_u64 s.revision;
  delta = compute_delta s.previous_text text;
  text = text;
  is_final = false;
  speech_final = false;
  begin_time_ms = none;
  end_time_ms = none;
  words = [];
}

abbrev pub final_result : AsrForwarder → Transcript → AsrResultPayload
unfolding compute_delta
final_result s transcript = record {
  segment_id = 0;
  revision = next_u64 s.revision;
  delta = compute_delta s.previous_text transcript.text;
  text = transcript.text;
  is_final = true;
  speech_final = true;
  begin_time_ms = and_then (first transcript.segments) (λ segment. segment.start_ms);
  end_time_ms = and_then (last transcript.segments) (λ segment. segment.end_ms);
  words = map word transcript.segments;
}

-- One turn of the loop: the state after it, and what is sent.
unfoldable pub forward_asr_event :
    SessionId → BridgeAsrEvent → AsrForwarder → AsrForwarder × ServerMessage
unfolding compute_delta
forward_asr_event session_id (partial text) s = (
  record { sequence = next_u64 s.sequence; revision = next_u64 s.revision; previous_text = text },
  asr_result session_id (next_u64 s.sequence) (partial_result s text),
)
forward_asr_event session_id (final transcript) s = (
  record {
    sequence = next_u64 s.sequence;
    revision = next_u64 s.revision;
    previous_text = transcript.text;
  },
  asr_result session_id (next_u64 s.sequence) (final_result s transcript),
)
forward_asr_event session_id (ended reason) s =
    (record s { sequence = next_u64 s.sequence }, session_ended session_id reason)
forward_asr_event session_id (AsrEvents.error message) s = (
  record s { sequence = next_u64 s.sequence },
  error none (some session_id) (new_error_info "provider_error" message),
)

-- The whole loop: what the client's writer receives, which takes `room` messages and is then gone.
unfoldable pub forward_asr_events :
    SessionId → ℕ → List BridgeAsrEvent → AsrForwarder → List ServerMessage
unfolding forward_asr_event send
forward_asr_events session_id room [] s = []
forward_asr_events session_id room (e ∷ es) s =
    let (s', message) = forward_asr_event session_id e s in
    send room message (λ left. forward_asr_events session_id left es s')

-- The state that the task starts in.
abbrev pub new_asr_forwarder : AsrForwarder
new_asr_forwarder = record { sequence = 0; revision = 0; previous_text = "" }
