-- ===== src/Common/Channel.antt =====
-- A channel of tokio's `mpsc`, seen by its one sender. The receiver takes `room` more messages and is
-- then dropped; a send after that fails, and the sender's task returns.
use Prim.Native.Nat.{ℕ, zero, suc}
use mathlib.Core.List.{List, [], ◌∷◌}
use mathlib.Core.Path.{◌≡◌, refl, ap}
use speechmesh.Common.Slices.{take}

-- What is received: `rest` is what the sender goes on with, where the send succeeds.
unfoldable pub send {ℓ} : {E : Type ℓ} → ℕ → E → (ℕ → List E) → List E
send zero event rest = []
send (suc room) event rest = event ∷ rest room

module _ {ℓ} {E : Type ℓ} where
  pub send_last : (room : ℕ) (event : E) → send room event (λ _. []) ≡ take room (event ∷ [])
  unfolding send take
  send_last zero event = refl
  send_last (suc zero) event = refl
  send_last (suc (suc room)) event = refl

  pub send_both :
      (room : ℕ) (event last : E)
      → send room event (λ left. send left last (λ _. [])) ≡ take room (event ∷ last ∷ [])
  unfolding send take
  send_both zero event last = refl
  send_both (suc room) event last = ap (event ∷◌) (send_last room last)
