-- ===== src/Player/Life.antt =====
-- A playback on a device from its first frame to its last:
-- speechmeshd/src/bin/speechmesh_agent/runtime.rs.
use speechmesh.Common.{
  ℕ, ◌+◌, ◌≡◌, refl, ap, sym, ◌∙◌, ◌==◌, String, Option, none, some, List, [], ◌∷◌, ◌++◌,
  if◌then◌else◌, length, length-append, arith, eq_iff, eq_refl,
}
use speechmesh.Common.Fallible.{Result, ok}
use speechmesh.Common.HashMap.{get, insert, get-insert, get-remove}
use speechmesh.Common.Slices.{concat}
use mathlib.Core.List.{append-nil, append_assoc}
use speechmesh.Core.{AudioFormat}
use speechmesh.Transport.Agent.{
  started, GatewayToAgentMessage, task_play_audio_start, task_play_audio_chunk,
  task_play_audio_finish,
}
use speechmesh.Player.{
  PlaybackTask, TaskTracker, Machine, exited_well, start_playback_task, status_of, without, forget,
  end_status, handle_gateway_message, handle_all, begun,
}

-- A machine on which players start, take what they are given and end well.
pub record IsWell (m : Machine) (format : Option AudioFormat) : Type 0 where
  pub starts :
      start_playback_task m format ≡ ok (record { stdin = []; chunk_count = 0; byte_count = 0 })
  pub writes : (bytes : List ℕ) → m.write bytes ≡ none
  pub ends : m.player_end ≡ exited_well

-- A player that was given some more parts.
abbrev pub fed : List (List ℕ) → PlaybackTask → PlaybackTask
fed [] task = task
fed (part ∷ parts) task = fed parts (record {
  stdin = task.stdin ++ part;
  chunk_count = task.chunk_count + 1;
  byte_count = task.byte_count + length part;
})

without-without :
    (task_id : String) (ids : List String)
    → without task_id (without task_id ids) ≡ without task_id ids
without-without task_id [] = refl
without-without task_id (id ∷ ids) = ground (arith, without-without task_id ids)

-- A player that was given these parts, and no others.
abbrev pub played_task : List (List ℕ) → PlaybackTask
played_task parts = record {
  stdin = concat parts;
  chunk_count = length parts;
  byte_count = length (concat parts);
}

fed_lem :
    (parts : List (List ℕ)) (task : PlaybackTask)
    → fed parts task ≡ record {
      stdin = task.stdin ++ concat parts;
      chunk_count = task.chunk_count + length parts;
      byte_count = task.byte_count + length (concat parts);
    }
unfolding concat
fed_lem [] task =
    let written : task.stdin ≡ task.stdin ++ [] = sym (append-nil task.stdin) in
    let counted : task.chunk_count ≡ task.chunk_count + 0 = omega arith in
    let sized : task.byte_count ≡ task.byte_count + 0 = omega arith in
    λ i. record { stdin = written i; chunk_count = counted i; byte_count = sized i }
fed_lem (part ∷ parts) task =
    let all_parts = concat (part ∷ parts) in
    let written = append_assoc task.stdin part (concat parts) in
    let counted : task.chunk_count + 1 + length parts ≡ task.chunk_count + length (part ∷ parts) =
      omega arith in
    let sized : task.byte_count + length part + length (concat parts)
        ≡ task.byte_count + length all_parts =
      omega (arith, length-append part (concat parts)) in
    fed_lem parts (fed (part ∷ []) task) ∙ λ i. record {
      stdin = written i;
      chunk_count = counted i;
      byte_count = sized i;
    }

fed_fresh :
    (parts : List (List ℕ))
    → fed parts (record { stdin = []; chunk_count = 0; byte_count = 0 }) ≡ played_task parts
fed_fresh parts =
    let counted : 0 + length parts ≡ length parts = omega arith in
    let sized : 0 + length (concat parts) ≡ length (concat parts) = omega arith in
    fed_lem parts (record { stdin = []; chunk_count = 0; byte_count = 0 }) ∙ λ i. record {
      stdin = concat parts;
      chunk_count = counted i;
      byte_count = sized i;
    }

-- Of one task nothing is left, of the others everything.
pub record IsWithout (task_id : String) (t t' : TaskTracker) : Type 0 where
  pub tasks :
      (k : String)
      → get k t'.play_audio_tasks ≡ (if task_id == k then none else get k t.play_audio_tasks)
  pub failed_starts : t'.failed_play_audio_starts ≡ without task_id t.failed_play_audio_starts

-- One task as given, and everything else.
pub record IsWith (task_id : String) (task : PlaybackTask) (t t' : TaskTracker) : Type 0 where
  pub tasks :
      (k : String)
      → get k t'.play_audio_tasks ≡ (if task_id == k then some task else get k t.play_audio_tasks)
  pub failed_starts : t'.failed_play_audio_starts ≡ t.failed_play_audio_starts

module _ {V : Type 0} (encode : List ℕ → String) where
  -- The chunks' frames.
  abbrev pub chunk_frames : String → List (List ℕ) → List (GatewayToAgentMessage V)
  chunk_frames task_id [] = []
  chunk_frames task_id (part ∷ parts) =
      task_play_audio_chunk task_id (encode part) ∷ chunk_frames task_id parts

abbrev pub on :
    {V : Type 0}
    → Machine
    → List (GatewayToAgentMessage V)
    → List (Machine × GatewayToAgentMessage V)
on m [] = []
on m (frame ∷ frames) = (m, frame) ∷ on m frames

module _ (V : Type 0) (encode : List ℕ → String) (decode : String → Result (List ℕ)) where
  module _ (m : Machine) (format : Option AudioFormat) (well : IsWell m format)
      (reads : (bytes : List ℕ) → decode (encode bytes) ≡ ok bytes) (task_id : String) where
    chunk_step :
        (part : List ℕ) (task : PlaybackTask) (t : TaskTracker)
        → get task_id t.play_audio_tasks ≡ some task
        → handle_gateway_message {V = V} decode m (task_play_audio_chunk task_id (encode part)) t
          ≡ (
            [],
            record t {
              play_audio_tasks = insert task_id (fed (part ∷ []) task) t.play_audio_tasks;
            },
          )
    unfolding handle_gateway_message
    chunk_step part task t at = rw (handle_gateway_message, at, reads part, well.writes part) refl

    finish_step :
        (task : PlaybackTask) (t : TaskTracker)
        → get task_id t.play_audio_tasks ≡ some task
        → handle_gateway_message {V = V} decode m (task_play_audio_finish task_id) t
          ≡ (end_status task_id task exited_well ∷ [], forget task_id t)
    unfolding handle_gateway_message
    finish_step task t at = rw (handle_gateway_message, at, well.ends) refl

    start_step :
        (t : TaskTracker)
        → get task_id t.play_audio_tasks ≡ none
        → handle_gateway_message {V = V} decode m (task_play_audio_start task_id format) t
          ≡ begun task_id (ok (record { stdin = []; chunk_count = 0; byte_count = 0 })) t
    unfolding handle_gateway_message
    start_step t free = rw (handle_gateway_message, free, well.starts) refl

    -- The chunks of a playback, from a running player on.
    chunks_fed :
        (parts : List (List ℕ)) (task : PlaybackTask) (t : TaskTracker)
        → get task_id t.play_audio_tasks ≡ some task
        → (t' : TaskTracker) × (handle_all {V = V} decode
              (on m (chunk_frames encode task_id parts))
              t
            ≡ ([], t'))
          × IsWith task_id (fed parts task) t t'
    unfolding handle_all
    chunks_fed [] task t at = (
      t,
      refl,
      record { tasks = λ k. ground (arith, at, eq_iff task_id k); failed_starts = refl },
    )
    chunks_fed (part ∷ parts) task t at =
        let task1 = fed (part ∷ []) task in
        let t1 : TaskTracker = record t {
          play_audio_tasks = insert task_id task1 t.play_audio_tasks;
        } in
        let (t', e, left) =
          chunks_fed parts task1 t1
            (rw (get-insert task_id task_id task1 t.play_audio_tasks, eq_refl task_id) refl) in
        (
          t',
          rw (chunk_step part task t at, e) refl,
          record {
            tasks =
                λ k. ground (arith, left.tasks k, get-insert task_id k task1 t.play_audio_tasks);
            failed_starts = left.failed_starts;
          },
        )

    -- All of it: the player is started, is given every part in order, and ends well.
    pub handle_all_plays :
        (parts : List (List ℕ)) (t : TaskTracker)
        → get task_id t.play_audio_tasks ≡ none
        → (t1 : TaskTracker) × (t' : TaskTracker) × (handle_all {V = V} decode
              (on m (task_play_audio_start task_id format ∷ chunk_frames encode task_id parts))
              t
            ≡ (status_of task_id started "play_audio started with local default output" ∷ [], t1))
          × (get task_id t1.play_audio_tasks ≡ some (played_task parts))
          × (handle_gateway_message {V = V} decode m (task_play_audio_finish task_id) t1
              ≡ (end_status task_id (played_task parts) exited_well ∷ [], t'))
          × IsWithout task_id t t'
    unfolding handle_all
    handle_all_plays parts t free =
        let fresh : PlaybackTask = record { stdin = []; chunk_count = 0; byte_count = 0 } in
        let t0 : TaskTracker = record {
          play_audio_tasks = insert task_id fresh t.play_audio_tasks;
          failed_play_audio_starts = without task_id t.failed_play_audio_starts;
        } in
        let (t1, e, left) =
          chunks_fed parts fresh t0
            (rw (get-insert task_id task_id fresh t.play_audio_tasks, eq_refl task_id) refl) in
        let at : get task_id t1.play_audio_tasks ≡ some (played_task parts) =
          rw (left.tasks task_id, eq_refl task_id) (ap some (fed_fresh parts)) in
        (
          t1,
          forget task_id t1,
          rw (start_step t free, e) refl,
          at,
          finish_step (played_task parts) t1 at,
          record {
            tasks = λ k. ground (
              arith,
              left.tasks k,
              get-remove task_id k t1.play_audio_tasks,
              get-insert task_id k fresh t.play_audio_tasks,
            );
            failed_starts =
                ap (without task_id) left.failed_starts
                ∙ without-without task_id t.failed_play_audio_starts;
          },
        )
