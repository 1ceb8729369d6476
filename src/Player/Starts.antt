-- ===== src/Player/Starts.antt =====
-- The tasks that run on a device and those whose start has failed:
-- speechmeshd/src/bin/speechmesh_agent/runtime.rs.
use speechmesh.Common.{
  ◌≡◌, ◌==◌, ◌||◌, String, true, false, Option, none, some, List, [], ◌∷◌, arith, if◌then◌else◌,
  has_text, eq_iff, ℕ, ◌+◌, ◌++◌, length, Option-cases, Bool-cases, inl, inr,
}
use speechmesh.Common.Fallible.{Result, ok, err}
use speechmesh.Common.HashMap.{get, remove, get-insert, get-remove}
use speechmesh.Transport.Agent.{
  GatewayToAgentMessage, hello_ok, session_start, session_audio, session_commit, session_stop,
  task_play_audio_start, task_play_audio_chunk, task_play_audio_finish, ping,
}
use speechmesh.Player.{
  PlaybackTask, TaskTracker, Machine, start_playback_task, without, added, forget, begun, feed,
  count, handle_gateway_message, handle_all, finish_failed_task,
}

-- No running task is among the failed starts.
abbrev pub IsApart : TaskTracker → Type 0
IsApart t =
    (k : String) → has_text t.failed_play_audio_starts k ≡ true → get k t.play_audio_tasks ≡ none

has_text-without :
    (id k : String) (ids : List String)
    → has_text (without id ids) k ≡ (if id == k then false else has_text ids k)
has_text-without id k [] = ground arith
has_text-without id k (i ∷ ids) =
    ground (arith, has_text-without id k ids, eq_iff id k, eq_iff i id, eq_iff i k)

has_text-added :
    (id k : String) (ids : List String) → has_text (added id ids) k ≡ (id == k || has_text ids k)
has_text-added id k ids = ground (arith, eq_iff id k)

-- Taking a task out, and putting one in that runs already.
remove-IsApart :
    (id : String) (t : TaskTracker)
    → IsApart t
    → IsApart (record t { play_audio_tasks = remove id t.play_audio_tasks })
remove-IsApart id t apart k failed =
    ground (arith, apart k failed, get-remove id k t.play_audio_tasks)

forget-IsApart : (id : String) (t : TaskTracker) → IsApart t → IsApart (forget id t)
forget-IsApart id t apart k failed = ground (
  arith,
  has_text-without id k t.failed_play_audio_starts,
  failed,
  λ (h : has_text t.failed_play_audio_starts k ≡ true). apart k h,
  get-remove id k t.play_audio_tasks,
)

begun-IsApart :
    (id : String) (r : Result PlaybackTask) (t : TaskTracker)
    → get id t.play_audio_tasks ≡ none
    → IsApart t
    → IsApart (begun id r t).1
begun-IsApart id (ok task) t free apart k failed = ground (
  arith,
  has_text-without id k t.failed_play_audio_starts,
  failed,
  λ (h : has_text t.failed_play_audio_starts k ≡ true). apart k h,
  get-insert id k task t.play_audio_tasks,
  eq_iff id k,
)
begun-IsApart id (err message) t free apart k failed = ground (
  arith,
  has_text-added id k t.failed_play_audio_starts,
  failed,
  λ (h : has_text t.failed_play_audio_starts k ≡ true). apart k h,
  eq_iff id k,
  free,
)

count-IsApart :
    (id : String) (task : PlaybackTask) (bytes : List ℕ) (answer : Option String) (t : TaskTracker)
    → get id t.play_audio_tasks ≡ some task
    → IsApart t
    → IsApart (count id task bytes answer t).1
unfolding finish_failed_task
count-IsApart id task bytes none t at apart k failed =
    let more : PlaybackTask = record {
      stdin = task.stdin ++ bytes;
      chunk_count = task.chunk_count + 1;
      byte_count = task.byte_count + length bytes;
    } in
    ground (arith, apart k failed, at, eq_iff id k, get-insert id k more t.play_audio_tasks)
count-IsApart id task bytes (some message) t at apart k failed = remove-IsApart id t apart k failed

feed-IsApart :
    (m : Machine) (id : String) (task : PlaybackTask) (r : Result (List ℕ)) (t : TaskTracker)
    → get id t.play_audio_tasks ≡ some task
    → IsApart t
    → IsApart (feed m id task r t).1
unfolding finish_failed_task
feed-IsApart m id task (ok bytes) t at apart =
    count-IsApart id task bytes (m.write bytes) t at apart
feed-IsApart m id task (err message) t at apart = remove-IsApart id t apart

module _ {V : Type 0} (decode : String → Result (List ℕ)) where
  handle-IsApart :
      (m : Machine) (frame : GatewayToAgentMessage V) (t : TaskTracker)
      → IsApart t
      → IsApart (handle_gateway_message decode m frame t).1
  unfolding handle_gateway_message
  handle-IsApart m (hello_ok server_name) t apart = apart
  handle-IsApart m ping t apart = apart
  handle-IsApart m (session_start session_id request) t apart = apart
  handle-IsApart m (session_audio session_id data_base64) t apart = apart
  handle-IsApart m (session_commit session_id) t apart = apart
  handle-IsApart m (session_stop session_id) t apart = apart
  handle-IsApart m (task_play_audio_start id format) t apart =
      elim (Option-cases (get id t.play_audio_tasks)) [
        | inl free ↦
            rw (handle_gateway_message, free)
              (begun-IsApart id (start_playback_task m format) t free apart)
        | inr (task, at) ↦ rw (handle_gateway_message, at) apart
      ]
  handle-IsApart m (task_play_audio_chunk id data_base64) t apart =
      elim (Option-cases (get id t.play_audio_tasks)) [
        | inr (task, at) ↦
            rw (handle_gateway_message, at) (feed-IsApart m id task (decode data_base64) t at apart)
        | inl free ↦ elim (Bool-cases (has_text t.failed_play_audio_starts id)) [
          | inl failed ↦ rw (handle_gateway_message, free, failed) apart
          | inr fine ↦ rw (handle_gateway_message, free, fine) apart
        ]
      ]
  handle-IsApart m (task_play_audio_finish id) t apart =
      elim (Option-cases (get id t.play_audio_tasks)) [
        | inr (task, at) ↦ rw (handle_gateway_message, at) (forget-IsApart id t apart)
        | inl free ↦ elim (Bool-cases (has_text t.failed_play_audio_starts id)) [
          | inl failed ↦ rw (handle_gateway_message, free, failed) (forget-IsApart id t apart)
          | inr fine ↦ rw (handle_gateway_message, free, fine) (forget-IsApart id t apart)
        ]
      ]

  -- If no running task of a device is among its failed starts, that is so after any frames from
  -- the gateway, whatever the machine answers.
  pub handle_all-IsApart :
      (frames : List (Machine × GatewayToAgentMessage V)) (t : TaskTracker)
      → IsApart t
      → IsApart (handle_all decode frames t).1
  unfolding handle_all
  handle_all-IsApart [] t apart = apart
  handle_all-IsApart ((m, frame) ∷ frames) t apart =
      handle_all-IsApart frames (handle_gateway_message decode m frame t).1
        (handle-IsApart m frame t apart)
