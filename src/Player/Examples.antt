-- ===== src/Player/Examples.antt =====
-- A device that plays three bytes with mpv.
use Prim.Native.Char.{code}
use Prim.Native.String.{[], ◌∷◌}
use speechmesh.Common.{
  ℕ, zero, suc, ◌+◌, beq, false, ap, ◌∙◌, ◌≡◌, refl, String, true, none, some, List, [], ◌∷◌, arith,
  length,
}
use speechmesh.Common.Fallible
use speechmesh.Common.HashMap.{get}
use speechmesh.Common.Slices.{chunks}
use speechmesh.Common.Text.{trim}
use speechmesh.Transport.Agent.{
  started, task_status, task_play_audio_start, task_play_audio_chunk, task_play_audio_finish,
}
use speechmesh.Device.Examples.{speaker}
use speechmesh.Bridges.Error.{ok}
use speechmesh.Gateway.State.{Gateway, command, task_result}
use speechmesh.Gateway.Log.{pushed}
use speechmesh.Gateway.Tasks.{handle_agent_message}
use speechmesh.Server.Control.{handle_control_play_audio, control_chunk_size}
use speechmesh.Server.Control.Frames.{meanwhile}
use speechmesh.Server.Control.Examples.{
  gateway, chime_as, chime-IsPlayable, from_base64, three_bytes,
}
use speechmesh.Player.{
  TaskTracker, Machine, exited_well, start_playback_task, status_of, handle_gateway_message,
  handle_all, resolve_playback_launcher, command_of,
}
use speechmesh.Player.Life.{IsWell, IsWithout, chunk_frames, on}
use speechmesh.Player.Starts.{IsApart, handle_all-IsApart}
use speechmesh.Player.Broadcast.{report_of, handle_control_play_audio_heard}

abbrev phone : Machine
phone = record {
  pad_player_cmd = none;
  playback_cmd = some "  ";
  ffplay_path = "ffplay";
  resolve_command_path = λ command. none;
  spawn = λ program arguments. none;
  write = λ bytes. none;
  player_end = exited_well;
}

phone-IsWell : IsWell phone none
unfolding start_playback_task resolve_playback_launcher command_of trim
phone-IsWell = record { starts = refl; writes = λ bytes. refl; ends = refl }

abbrev idle : TaskTracker
idle = record { play_audio_tasks = []; failed_play_audio_starts = "t9" ∷ [] }

handle_all-IsApart_example :
    IsApart
      (handle_all {V = Unit {0}}
        (λ text. Fallible.ok three_bytes)
        (on phone (task_play_audio_start "t9" none ∷ task_play_audio_chunk "t9" "AQID" ∷ []))
        idle).1
unfolding get
handle_all-IsApart_example =
    handle_all-IsApart (λ text. Fallible.ok three_bytes)
      (on phone (task_play_audio_start "t9" none ∷ task_play_audio_chunk "t9" "AQID" ∷ [])) idle
      (λ k failed. refl)

-- An encoding of byte strings: strokes for a number, and a dot after it.
strokes : ℕ → String → String
strokes zero rest = "." ∷ rest
strokes (suc n) rest = "i" ∷ strokes n rest

encode : List ℕ → String
unfolding strokes
encode [] = []
encode (n ∷ ns) = strokes n (encode ns)

abbrev front : ℕ → Fallible.Result (List ℕ) → Fallible.Result (List ℕ)
front n (Fallible.ok ns) = Fallible.ok (n ∷ ns)
front n (Fallible.err message) = Fallible.err message

counted : ℕ → String → Fallible.Result (List ℕ)
counted n [] = Fallible.ok []
counted n (c ∷ s) = elim (beq (code c) 46) [
  | true ↦ front n (counted 0 s)
  | false ↦ counted (suc n) s
]

counted-strokes :
    (k n : ℕ) (rest : String) → counted k (strokes n rest) ≡ front (k + n) (counted 0 rest)
unfolding counted strokes
counted-strokes k zero rest =
    let e : k ≡ k + 0 = omega arith in ap (λ (n : ℕ). front n (counted 0 rest)) e
counted-strokes k (suc n) rest =
    let e : suc k + n ≡ k + suc n = omega arith in
    counted-strokes (suc k) n rest ∙ ap (λ (n : ℕ). front n (counted 0 rest)) e

abbrev counted_bytes : String → Fallible.Result (List ℕ)
counted_bytes text = counted 0 text

counted-encode : (bytes : List ℕ) → counted 0 (encode bytes) ≡ Fallible.ok bytes
unfolding encode counted
counted-encode [] = refl
counted-encode (n ∷ ns) =
    let none_before : 0 + n ≡ n = omega arith in
    rw (counted-strokes 0 n (encode ns), counted-encode ns, none_before) refl

handle_control_play_audio_heard_example :
    (let parts = chunks (control_chunk_size (some 2)) three_bytes in
      (h : Gateway (Unit {0})) × (t1 : TaskTracker) × (t' : TaskTracker)
      × (handle_control_play_audio encode
            (meanwhile (handle_agent_message (task_status (trim " t2 ") (report_of parts))))
            from_base64
            1
            40
            (chime_as " t2 ")
            gateway
          ≡ (
            ok (record {
              task_id = trim " t2 ";
              routed_agent_id = "den-agent";
              chunk_count = length parts;
              total_bytes = 3;
            }),
            h,
          ))
      × (h.log
          ≡ task_result 40 (ok (report_of parts))
            ∷ command speaker.command_tx (task_play_audio_finish (trim " t2 "))
            ∷ pushed speaker.command_tx
                (task_play_audio_start (trim " t2 ") none ∷ chunk_frames encode (trim " t2 ") parts)
                [])
      × (handle_all {V = Unit {0}} counted_bytes
            (on phone
              (task_play_audio_start (trim " t2 ") none ∷ chunk_frames encode (trim " t2 ") parts))
            idle
          ≡ (
            status_of (trim " t2 ") started "play_audio started with local default output" ∷ [],
            t1,
          ))
      × (get (trim " t2 ") t1.play_audio_tasks
          ≡ some (record { stdin = three_bytes; chunk_count = length parts; byte_count = 3 }))
      × (handle_gateway_message {V = Unit {0}} counted_bytes phone
            (task_play_audio_finish (trim " t2 "))
            t1
          ≡ (task_status (trim " t2 ") (report_of parts) ∷ [], t'))
      × IsWithout (trim " t2 ") idle t')
unfolding get trim
handle_control_play_audio_heard_example =
    handle_control_play_audio_heard (Unit {0}) encode from_base64 counted_bytes 1 40
      (chime_as " t2 ") gateway " t2 " speaker three_bytes phone idle chime-IsPlayable refl
      counted-encode phone-IsWell refl
