-- ===== src/Player.antt =====
-- The agent of a device that plays audio: speechmeshd/src/bin/speechmesh_agent/runtime.rs. What the
-- machine answers is an argument: its environment, its files and its processes.
pub mod Life
pub mod Broadcast
pub mod Starts
pub mod Examples
use speechmesh.Common.{
  ℕ, ◌+◌, ◌≡◌, ◌==◌, ◌⧺◌, not, String, Bool, Option, none, some, List, [], ◌∷◌, ◌++◌, if◌then◌else◌,
  keep, has_text, length,
}
use speechmesh.Common.Fallible.{Result, ok, err}
use speechmesh.Common.HashMap.{HashMap, get, insert, remove, contains_key}
use speechmesh.Common.Text.{trim, is_empty, show}
use speechmesh.Core.{
  debug_encoding, AudioFormat, AudioEncoding, pcm_s16le, pcm_f32le, opus, mp3, aac, flac, wav,
}
use speechmesh.Transport.Agent.{
  AgentTaskState, started, finished, failed, AgentToGatewayMessage, GatewayToAgentMessage, hello_ok,
  session_start, session_audio, session_commit, session_stop, task_play_audio_start,
  task_play_audio_chunk, task_play_audio_finish, ping, session_ended, error, task_status, pong,
}

-- The player's process, for which `stdin` is what was written to it.
pub record PlaybackTask : Type 0 where
  pub stdin : List ℕ
  pub chunk_count : ℕ
  pub byte_count : ℕ

-- The set of failed starts is a list.
pub record TaskTracker : Type 0 where
  pub play_audio_tasks : HashMap PlaybackTask
  pub failed_play_audio_starts : List String

pub data PlaybackLauncher : Type 0 where
  shell_command ffplay mpv : String → PlaybackLauncher

-- How the wait for a player ends, with what is collected of its stderr.
pub data PlayerEnd : Type 0 where
  exited_well : PlayerEnd
  exited_with wait_failed : String → String → PlayerEnd
  timed_out : String → PlayerEnd

-- What the machine answers while one frame is handled. An answer of an action is the error, if any.
pub record Machine : Type 0 where
  pub pad_player_cmd : Option String
  pub playback_cmd : Option String
  pub ffplay_path : String
  pub resolve_command_path : String → Option String
  pub spawn : String → List String → Option String
  pub write : List ℕ → Option String
  pub player_end : PlayerEnd

-- An environment variable that is not blank.
abbrev shell_of : Option String → Option String
shell_of none = none
shell_of (some raw) = if is_empty (trim raw) then none else some (trim raw)

abbrev found_player : Option String → Option String → String → PlaybackLauncher
found_player (some path) b fallback = ffplay path
found_player none (some path) fallback = mpv path
found_player none none fallback = ffplay fallback

abbrev launcher_of : Option String → Option String → PlaybackLauncher → PlaybackLauncher
launcher_of (some command) b player = shell_command command
launcher_of none (some command) player = shell_command command
launcher_of none none player = player

unfoldable pub resolve_playback_launcher : Machine → PlaybackLauncher
resolve_playback_launcher m = launcher_of (shell_of m.pad_player_cmd) (shell_of m.playback_cmd) (
    found_player (m.resolve_command_path m.ffplay_path) (m.resolve_command_path "mpv")
      m.ffplay_path)

abbrev input_format : AudioEncoding → Result (Option String)
input_format mp3 = ok (some "mp3")
input_format wav = ok (some "wav")
input_format flac = ok (some "flac")
input_format other =
    err ("unsupported play_audio encoding for local player: " ⧺ debug_encoding other)

unfoldable pub ffplay_input_format : Option AudioFormat → Result (Option String)
ffplay_input_format none = ok none
ffplay_input_format (some format) = input_format format.encoding

abbrev expected_arguments : Option String → List String
expected_arguments none = []
expected_arguments (some expected) = "-f" ∷ expected ∷ []

-- The program and its arguments.
unfoldable pub command_of : PlaybackLauncher → Option AudioFormat → Result (String × List String)
unfolding ffplay_input_format
command_of (shell_command shell_cmd) format = ok ("sh", "-lc" ∷ shell_cmd ∷ [])
command_of (ffplay ffplay_path) format = elim (ffplay_input_format format) [
  | err message ↦ err message
  | ok expected ↦ ok (
    ffplay_path,
    "-nodisp"
        ∷ "-autoexit"
        ∷ "-loglevel"
        ∷ "error"
        ∷ (expected_arguments expected ++ ("-i" ∷ "pipe:0" ∷ [])),
  )
]
command_of (mpv mpv_path) format =
    ok (
      mpv_path,
      "--no-config" ∷ "--no-terminal" ∷ "--really-quiet" ∷ "--no-video" ∷ "--" ∷ "-" ∷ [],
    )

abbrev spawned : Option String → Result PlaybackTask
spawned none = ok (record { stdin = []; chunk_count = 0; byte_count = 0 })
spawned (some message) = err message

unfoldable pub start_playback_task : Machine → Option AudioFormat → Result PlaybackTask
unfolding resolve_playback_launcher command_of
start_playback_task m format = elim (command_of (resolve_playback_launcher m) format) [
  | err message ↦ err message
  | ok (program, arguments) ↦ spawned (m.spawn program arguments)
]

abbrev pub status_of : String → AgentTaskState → String → AgentToGatewayMessage
status_of task_id state message =
    task_status task_id (record { state = state; message = some message })

-- The frames that are sent, and the tracker after them. The writer takes every frame.
abbrev pub Handled : Type 0
Handled = List AgentToGatewayMessage × TaskTracker

abbrev pub without : String → List String → List String
without task_id ids = keep (λ (id : String). not (id == task_id)) ids

abbrev pub added : String → List String → List String
added task_id ids = if has_text ids task_id then ids else task_id ∷ ids

unfoldable pub finish_failed_task : TaskTracker → String → String → Handled
finish_failed_task t task_id reason = (
  status_of task_id failed reason ∷ [],
  record t { play_audio_tasks = remove task_id t.play_audio_tasks },
)

unfoldable pub abort_all_playback_tasks : TaskTracker → TaskTracker
abort_all_playback_tasks t = record t { play_audio_tasks = [] }

-- `TaskPlayAudioStart`, after the start.
abbrev pub begun : String → Result PlaybackTask → TaskTracker → Handled
begun task_id (ok task) t = (
  status_of task_id started "play_audio started with local default output" ∷ [],
  record {
    play_audio_tasks = insert task_id task t.play_audio_tasks;
    failed_play_audio_starts = without task_id t.failed_play_audio_starts;
  },
)
begun task_id (err message) t = (
  status_of task_id failed ("failed to start local playback: " ⧺ message) ∷ [],
  record t { failed_play_audio_starts = added task_id t.failed_play_audio_starts },
)

-- `TaskPlayAudioChunk` of a running task, after the decoding, and after the write.
abbrev pub count : String → PlaybackTask → List ℕ → Option String → TaskTracker → Handled
count task_id task bytes none t = (
  [],
  record t {
    play_audio_tasks =
        insert task_id
          (record {
            stdin = task.stdin ++ bytes;
            chunk_count = task.chunk_count + 1;
            byte_count = task.byte_count + length bytes;
          })
          t.play_audio_tasks;
  },
)
count task_id task bytes (some message) t =
    finish_failed_task t task_id ("failed writing audio chunk to player stdin: " ⧺ message)

abbrev pub feed : Machine → String → PlaybackTask → Result (List ℕ) → TaskTracker → Handled
feed m task_id task (ok bytes) t = count task_id task bytes (m.write bytes) t
feed m task_id task (err message) t =
    finish_failed_task t task_id ("invalid play_audio chunk base64: " ⧺ message)

-- `TaskPlayAudioFinish` of a running task, after the wait.
abbrev pub end_status : String → PlaybackTask → PlayerEnd → AgentToGatewayMessage
end_status task_id task exited_well = status_of task_id finished (
    "play_audio finished (chunks="
    ⧺ show task.chunk_count
    ⧺ ", bytes="
    ⧺ show task.byte_count
    ⧺ ")")
end_status task_id task (exited_with status stderr) =
    status_of task_id failed
      ("local playback process exited with status " ⧺ status ⧺ "; stderr: " ⧺ stderr)
end_status task_id task (wait_failed message stderr) =
    status_of task_id failed
      ("failed waiting for local playback process: " ⧺ message ⧺ "; stderr: " ⧺ stderr)
end_status task_id task (timed_out stderr) =
    status_of task_id failed ("local playback timed out after 20s; stderr: " ⧺ stderr)

abbrev pub forget : String → TaskTracker → TaskTracker
forget task_id t = record {
  play_audio_tasks = remove task_id t.play_audio_tasks;
  failed_play_audio_starts = without task_id t.failed_play_audio_starts;
}

-- `decode` is that of the base64 crate.
module _ {V : Type 0} (decode : String → Result (List ℕ)) where
  unfoldable pub handle_gateway_message : Machine → GatewayToAgentMessage V → TaskTracker → Handled
  unfolding start_playback_task finish_failed_task
  handle_gateway_message m (hello_ok server_name) t = ([], t)
  handle_gateway_message m ping t = (pong ∷ [], t)
  handle_gateway_message m (session_start session_id request) t = (
    error (some session_id) "device task handling is not implemented yet"
        ∷ session_ended session_id (some "not_implemented")
        ∷ [],
    t,
  )
  handle_gateway_message m (session_audio session_id data_base64) t =
      (error (some session_id) "session command unsupported by runtime skeleton" ∷ [], t)
  handle_gateway_message m (session_commit session_id) t =
      (error (some session_id) "session command unsupported by runtime skeleton" ∷ [], t)
  handle_gateway_message m (session_stop session_id) t =
      (error (some session_id) "session command unsupported by runtime skeleton" ∷ [], t)
  handle_gateway_message m (task_play_audio_start task_id format) t =
      if contains_key task_id t.play_audio_tasks
      then (status_of task_id failed "duplicate play_audio task.start" ∷ [], t)
      else begun task_id (start_playback_task m format) t
  handle_gateway_message m (task_play_audio_chunk task_id data_base64) t =
      elim (get task_id t.play_audio_tasks) [
        | some task ↦ feed m task_id task (decode data_base64) t
        | none ↦
            if has_text t.failed_play_audio_starts task_id
            then ([], t)
            else (status_of task_id failed "chunk received before task.start" ∷ [], t)
      ]
  handle_gateway_message m (task_play_audio_finish task_id) t =
      let t' = forget task_id t in
      elim (get task_id t.play_audio_tasks) [
        | some task ↦ (end_status task_id task m.player_end ∷ [], t')
        | none ↦
            if has_text t.failed_play_audio_starts task_id
            then ([], t')
            else (status_of task_id failed "finish received before task.start" ∷ [], t')
      ]

  -- The frames of a connection, each with what the machine answers to it, and the frames sent.
  unfoldable pub handle_all : List (Machine × GatewayToAgentMessage V) → TaskTracker → Handled
  unfolding handle_gateway_message
  handle_all [] t = ([], t)
  handle_all ((m, frame) ∷ frames) t =
      let (sent, t1) = handle_gateway_message m frame t in
      let (later, t2) = handle_all frames t1 in (sent ++ later, t2)
