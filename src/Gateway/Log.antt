-- ===== src/Gateway/Log.antt =====
-- What a send changes: the log at most.
use speechmesh.Common.{List, [], ◌∷◌, true, ◌≡◌, refl, Memᴰ, Bool-cases, inl, inr}
use speechmesh.Transport.Agent.{GatewayToAgentMessage}
use speechmesh.Device.Registry.{Sender}
use speechmesh.Gateway.State.{Gateway, Delivery, command, send}

module _ {V : Type 0} where
  -- `h` differs from `g` in the log at most, which has grown.
  pub record Logs (g h : Gateway V) : Type 0 where
    pub device_registry : h.device_registry ≡ g.device_registry
    pub secret : h.expected_shared_secret ≡ g.expected_shared_secret
    pub sessions : h.sessions ≡ g.sessions
    pub task_waiters : h.task_waiters ≡ g.task_waiters
    pub is_open : h.is_open ≡ g.is_open
    pub grows : (d : Delivery V) → Memᴰ d g.log → Memᴰ d h.log

  pub Logs-refl : (g : Gateway V) → Logs g g
  Logs-refl g = record {
    device_registry = refl;
    secret = refl;
    sessions = refl;
    task_waiters = refl;
    is_open = refl;
    grows = λ d m. m;
  }

  pub Logs-trans : {g h k : Gateway V} → Logs g h → Logs h k → Logs g k
  Logs-trans a b = record {
    device_registry = cc;
    secret = cc;
    sessions = cc;
    task_waiters = cc;
    is_open = cc;
    grows = λ d m. b.grows d (a.grows d m);
  }

  pub send-Logs : (tx : Sender) (d : Delivery V) (g : Gateway V) → Logs g (send tx d g)
  send-Logs tx d g = elim (Bool-cases (g.is_open tx)) [
    | inl up ↦ rw up (record {
      device_registry = refl;
      secret = refl;
      sessions = refl;
      task_waiters = refl;
      is_open = refl;
      grows = λ e m. Memᴰ.tail m;
    })
    | inr down ↦ rw down (Logs-refl g)
  ]

  pub send-mem :
      (tx : Sender) (d : Delivery V) (g : Gateway V)
      → g.is_open tx ≡ true
      → Memᴰ d (send tx d g).log
  send-mem tx d g up = rw up (Memᴰ.head refl)

-- Frames delivered on a channel, in order, on top of a log.
abbrev pub pushed :
    {V : Type 0} → Sender → List (GatewayToAgentMessage V) → List (Delivery V) → List (Delivery V)
pushed tx [] log = log
pushed tx (frame ∷ frames) log = pushed tx frames (command tx frame ∷ log)
