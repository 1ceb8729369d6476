-- ===== src/Bridges/Audio/Chunks/Cuts.antt =====
-- What emit_audio_chunks of bridges/src/tts/mod.rs sends.
use speechmesh.Common.{
  ℕ, zero, suc, ◌+◌, ◌≤◌, ◌<◌, ◌≡◌, refl, subst, ap, true, false, Option, none, List, [], ◌∷◌, ◌++◌,
  if◌then◌else◌, ltb, beq, length, map, arith, inl, inr, Bool-cases, leb,
}
use speechmesh.Common.Slices.{
  take, drop, chunks_on, chunks, take-append-drop, take_all, length-take,
}
use speechmesh.Core.{AudioFormat}
use speechmesh.Tts.{AudioChunk}
use speechmesh.Bridges.Error.{disconnected, ok, err}
use speechmesh.Bridges.TtsEvents.{audio}
use speechmesh.Bridges.Audio.Chunks.{
  div_ceil, chunk_at, send_parts, emit_audio_chunks, max, Emitted,
}

-- The chunks cut the bytes in order: full ones, and a last one that is final.
pub data Cuts (size : ℕ) : ℕ → Option AudioFormat → List ℕ → List AudioChunk → Type 0 where
  last :
      (k : ℕ) (f : Option AudioFormat) (part : List ℕ)
      → 0 < length part
      → length part ≤ size
      → Cuts size k f part (record { bytes = part; sequence = k; is_final = true; format = f } ∷ [])
  more :
      (k : ℕ) (f : Option AudioFormat) (part rest : List ℕ) (cs : List AudioChunk)
      → length part ≡ size
      → Cuts size (k + 1) none rest cs
      → Cuts size k f
          (part ++ rest)
          (record { bytes = part; sequence = k; is_final = false; format = f } ∷ cs)

div_ceil-one : (r n : ℕ) → 0 < r → r ≤ n → div_ceil r n ≡ 1
unfolding div_ceil
div_ceil-one r n h k = grind arith

div_ceil-more : (r n : ℕ) → 0 < r → 0 < n → div_ceil (r + n) n ≡ 1 + div_ceil r n
unfolding div_ceil
div_ceil-more r n h k = grind arith

div_ceil-pos : (r n : ℕ) → 0 < r → 0 < n → 1 ≤ div_ceil r n
unfolding div_ceil
div_ceil-pos r n h k = grind arith

-- All the chunks, whatever the receiver takes.
cut : ℕ → Option AudioFormat → ℕ → List (List ℕ) → List AudioChunk
cut total f index [] = []
cut total f index (part ∷ parts) = chunk_at total f index part ∷ cut total f (index + 1) parts

abbrev sent : ℕ → List AudioChunk → Emitted
sent room cs = (
  map audio (take room cs),
  if ltb room (length cs) then err (disconnected "bridge event channel closed") else ok tt,
)

send_parts-sent :
    (total : ℕ) (f : Option AudioFormat) (room index : ℕ) (parts : List (List ℕ))
    → send_parts total f room index parts ≡ sent room (cut total f index parts)
unfolding send_parts cut take
send_parts-sent total f zero index [] = refl
send_parts-sent total f (suc room) index [] = ground arith
send_parts-sent total f zero index (part ∷ parts) = ground arith
send_parts-sent total f (suc room) index (part ∷ parts) =
    rw (send_parts-sent total f room (index + 1) parts) (ground arith)

module _ (size total : ℕ) (f : Option AudioFormat) (index : ℕ) (part : List ℕ) where
  cut_last :
      total ≡ index + 1
      → 0 < length part
      → length part ≤ size
      → Cuts size
          (index + 1)
          (if beq index 0 then f else none)
          part
          (chunk_at total f index part ∷ [])
  cut_last e pos h =
      let final : beq (index + 1) total ≡ true = ground (arith, e) in
      rw final (Cuts.last (index + 1) (if beq index 0 then f else none) part pos h)

  cut_more :
      (rest : List ℕ) (cs : List AudioChunk)
      → index + 1 < total
      → length part ≡ size
      → Cuts size (index + 1 + 1) (if beq (index + 1) 0 then f else none) rest cs
      → Cuts size
          (index + 1)
          (if beq index 0 then f else none)
          (part ++ rest)
          (chunk_at total f index part ∷ cs)
  cut_more rest cs e h c =
      let not_final : beq (index + 1) total ≡ false = ground (arith, e) in
      let later : beq (index + 1) 0 ≡ false = ground arith in
      rw not_final
        (Cuts.more (index + 1) (if beq index 0 then f else none) part rest cs h (rw later at c))

chunks_on-Cuts :
    (size : ℕ) (f : Option AudioFormat)
    → 0 < size
    → (fuel index total : ℕ) (xs : List ℕ) → length xs ≤ fuel
    → 0 < length xs
    → total ≡ index + div_ceil (length xs) size
    → Cuts size
        (index + 1)
        (if beq index 0 then f else none)
        xs
        (cut total f index (chunks_on fuel size xs))
unfolding chunks_on cut
chunks_on-Cuts size f pos fuel index total [] h k e = absurd (omega (arith, k))
chunks_on-Cuts size f pos zero index total (x ∷ xs) h k e = absurd (omega (arith, h))
chunks_on-Cuts size f pos (suc fuel) index total (x ∷ xs) h k e =
    elim (Bool-cases (leb (length (x ∷ xs)) size)) [
      | inl small ↦
          let (t, d) = take_all size (x ∷ xs) (ground (arith, small)) in
          rw (t, d)
            (cut_last size total f index (x ∷ xs)
              (omega (arith, e, div_ceil-one (length (x ∷ xs)) size k (ground (arith, small)))) k
              (ground (arith, small)))
      | inr big ↦
          let (t, d) = length-take size (x ∷ xs) (ground (arith, big)) in
          let pos_rest : 0 < length (drop size (x ∷ xs)) = ground (arith, big, d) in
          let more = div_ceil-more (length (drop size (x ∷ xs))) size pos_rest pos in
          let count = ap (λ (n : ℕ). div_ceil n size) d in
          let some_more = div_ceil-pos (length (drop size (x ∷ xs))) size pos_rest pos in
          subst
            (λ (ys : List ℕ). Cuts size (index + 1) (if beq index 0 then f else none) ys (
              chunk_at total f index (take size (x ∷ xs))
              ∷ cut total f (index + 1) (chunks_on fuel size (drop size (x ∷ xs)))))
            (take-append-drop size (x ∷ xs))
            (cut_more size total f index (take size (x ∷ xs)) (drop size (x ∷ xs)) _
              (omega (arith, e, more, count, some_more)) t
              (chunks_on-Cuts size f pos fuel (index + 1) total (drop size (x ∷ xs))
                (omega (arith, h, d, pos)) pos_rest (omega (arith, e, more, count))))
    ]

-- For audio that is not empty and a chunk size that is not zero, there are chunks which cut the
-- audio in order: each but the last has exactly that size, the last has at least a byte and at
-- most that size and alone is final, they are numbered from 1, and the first alone has the format.
-- As many of them are sent as the receiver takes, and an error is returned exactly if it does not
-- take them all.
pub emit_audio_chunks-Cuts :
    (room : ℕ) (bytes : List ℕ) (f : Option AudioFormat) (size : ℕ)
    → 0 < size
    → 0 < length bytes
    → (cs : List AudioChunk) × Cuts size 1 f bytes cs
      × (emit_audio_chunks room bytes f size ≡ (
        map audio (take room cs),
        if ltb room (length cs) then err (disconnected "bridge event channel closed") else ok tt,
      ))
unfolding emit_audio_chunks chunks
emit_audio_chunks-Cuts room [] f size pos h = absurd (omega (arith, h))
emit_audio_chunks-Cuts room (b ∷ bytes) f size pos h =
    let total = max 1 (div_ceil (length (b ∷ bytes)) size) in
    let parts = chunks_on (length (b ∷ bytes)) size (b ∷ bytes) in
    let one = div_ceil-pos (length (b ∷ bytes)) size h pos in
    (
      cut total f 0 parts,
      chunks_on-Cuts size f pos (length (b ∷ bytes)) 0 total (b ∷ bytes) (omega arith) h
          (ground (arith, one)),
      send_parts-sent total f room 0 parts,
    )
