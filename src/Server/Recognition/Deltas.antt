-- ===== src/Server/Recognition/Deltas.antt =====
-- What the deltas of a recognition session promise a client.
use speechmesh.Common.Channel.{send}
use speechmesh.Common.{
  ℕ, zero, suc, ◌+◌, ◌%◌, ◌^◌, String, true, false, ◌≡◌, refl, Option, none, some, List, [], ◌∷◌,
  arith, ◌==◌, ◌⧺◌, ◌⊎◌, inl, inr, eq_iff, Bool-cases, Option-cases, ap, sym, ◌∙◌,
}
use speechmesh.Common.Text.{
  is_empty, is_empty-true, strip_prefix, strip_prefix-append, strip_prefix-of_append,
}
use text.Mathlib.TextLemmas.{nil-append}
use speechmesh.Core.{SessionId, new_error_info}
use speechmesh.Bridges.AsrEvents.{BridgeAsrEvent, partial, final, ended}
use speechmesh.Bridges.AsrEvents
use speechmesh.Transport.Server.{ServerMessage, asr_result, session_ended, error}
use speechmesh.Server.Recognition.{
  compute_delta, AsrForwarder, forward_asr_event, forward_asr_events, new_asr_forwarder,
}

-- What a delta says of two texts: that they are the same; what the second adds to the first; or,
-- where the second does not continue the first, the second.
abbrev pub Leads : String → String → Option String → Type 0
Leads previous current none = current ≡ previous
Leads previous current (some delta) =
    (current ≡ previous ⧺ delta)
    ⊎ ((delta ≡ current) × ((rest : String) → ¬ (current ≡ previous ⧺ rest)))

stripped :
    (previous current rest : String)
    → (current == previous) ≡ false
    → is_empty previous ≡ false
    → strip_prefix previous current ≡ some rest
    → compute_delta previous current ≡ some rest
unfolding compute_delta
stripped previous current rest other some_text e = rw (other, some_text, e, compute_delta) refl

unrelated :
    (previous current : String)
    → (current == previous) ≡ false
    → strip_prefix previous current ≡ none
    → compute_delta previous current ≡ some current
unfolding compute_delta
unrelated previous current other e = ground (arith, other, e)

no_delta :
    (previous current : String)
    → (current == previous) ≡ true
    → compute_delta previous current ≡ none
unfolding compute_delta
no_delta previous current same = ground (arith, same)

from_nothing :
    (previous current : String)
    → (current == previous) ≡ false
    → is_empty previous ≡ true
    → compute_delta previous current ≡ some current
unfolding compute_delta
from_nothing previous current other e = ground (arith, other, e)

none-some : (s : String) → none ≡ some s → ⊥
none-some s e = cc

-- The delta between two texts is none only if they are the same; otherwise it is what the second
-- adds to the first or, where the second does not continue the first, the second.
pub compute_delta-Leads :
    (previous current : String) → Leads previous current (compute_delta previous current)
compute_delta-Leads previous current = elim (Bool-cases (current == previous)) [
  | inl same ↦ rw (no_delta previous current same) ((eq_iff current previous).0 same)
  | inr other ↦ elim (Bool-cases (is_empty previous)) [
    | inl blank ↦
        rw (from_nothing previous current other blank)
          (inl (rw (is_empty-true previous blank) (sym (nil-append current))))
    | inr some_text ↦ elim (Option-cases (strip_prefix previous current)) [
      | inl e ↦ rw (unrelated previous current other e) (
          inr (
            refl,
            λ rest h.
                none-some rest
                  (sym e ∙ ap (strip_prefix previous) h ∙ strip_prefix-of_append previous rest),
          ))
      | inr (rest, e) ↦
          rw (stripped previous current rest other some_text e)
            (inl (strip_prefix-append previous current rest e))
    ]
  ]
]

-- A result of `text` that follows `n` events, `r` results and the text `previous`: its sequence
-- number and its revision count it in, and its delta leads from the last text to its own.
abbrev pub IsResult : SessionId → ℕ → ℕ → String → String → ServerMessage → Type 0
IsResult id n r previous text (asr_result id' sequence payload) =
    (id' ≡ id)
    × (sequence ≡ (n + 1) % 2 ^ 64)
    × (payload.revision ≡ (r + 1) % 2 ^ 64)
    × (payload.text ≡ text)
    × Leads previous text payload.delta
IsResult id n r previous text _ = ⊥

-- The messages for some events, of which the client's writer takes `room`: one message for each of
-- the first `room` events, in order, which is a result for a partial or a final text, the end for
-- the end, and an error of the provider for an error; and nothing after them.
abbrev pub Follows :
    SessionId → ℕ → ℕ → ℕ → String → List BridgeAsrEvent → List ServerMessage → Type 0
Follows id zero n r previous es ms = ms ≡ []
Follows id (suc room) n r previous [] ms = ms ≡ []
Follows id (suc room) n r previous (e ∷ es) [] = ⊥
Follows id (suc room) n r previous (partial text ∷ es) (m ∷ ms) =
    IsResult id n r previous text m × Follows id room (n + 1) (r + 1) text es ms
Follows id (suc room) n r previous (final transcript ∷ es) (m ∷ ms) =
    IsResult id n r previous transcript.text m
    × Follows id room (n + 1) (r + 1) transcript.text es ms
Follows id (suc room) n r previous (ended reason ∷ es) (m ∷ ms) =
    (m ≡ session_ended id reason) × Follows id room (n + 1) r previous es ms
Follows id (suc room) n r previous (AsrEvents.error message ∷ es) (m ∷ ms) =
    (m ≡ error none (some id) (new_error_info "provider_error" message))
    × Follows id room (n + 1) r previous es ms

next_mod : (a n : ℕ) → a ≡ n % 2 ^ 64 → (a + 1) % 2 ^ 64 ≡ (n + 1) % 2 ^ 64
next_mod a n e = omega (arith, e)

forward_from :
    (id : SessionId) (room : ℕ) (es : List BridgeAsrEvent) (s : AsrForwarder) (n r : ℕ)
    → s.sequence ≡ n % 2 ^ 64
    → s.revision ≡ r % 2 ^ 64
    → Follows id room n r s.previous_text es (forward_asr_events id room es s)
unfolding forward_asr_events forward_asr_event send
forward_from id zero [] s n r a b = refl
forward_from id zero (e ∷ es) s n r a b = refl
forward_from id (suc room) [] s n r a b = refl
forward_from id (suc room) (partial text ∷ es) s n r a b = (
  (refl, next_mod _ n a, next_mod _ r b, refl, compute_delta-Leads s.previous_text text),
  forward_from id room es _ (n + 1) (r + 1) (next_mod _ n a) (next_mod _ r b),
)
forward_from id (suc room) (final transcript ∷ es) s n r a b = (
  (refl, next_mod _ n a, next_mod _ r b, refl, compute_delta-Leads s.previous_text transcript.text),
  forward_from id room es _ (n + 1) (r + 1) (next_mod _ n a) (next_mod _ r b),
)
forward_from id (suc room) (ended reason ∷ es) s n r a b =
    (refl, forward_from id room es _ (n + 1) r (next_mod _ n a) b)
forward_from id (suc room) (AsrEvents.error message ∷ es) s n r a b =
    (refl, forward_from id room es _ (n + 1) r (next_mod _ n a) b)

-- A client is sent one message for each event of a recognition session, in order, until the
-- client's writer is gone: one that takes some number of messages receives those for the first
-- that many events, and nothing after them. A result's sequence number is the place of its event
-- among the events and its revision its place among the results, both modulo 2^64; its text is
-- that of the event, and its delta leads to it from the last text.
pub forward_asr_events-Follows :
    (id : SessionId) (room : ℕ) (es : List BridgeAsrEvent)
    → Follows id room 0 0 "" es (forward_asr_events id room es new_asr_forwarder)
forward_asr_events-Follows id room es =
    forward_from id room es new_asr_forwarder 0 0 (omega arith) (omega arith)
