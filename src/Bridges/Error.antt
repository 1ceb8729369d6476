-- ===== src/Bridges/Error.antt =====
-- bridges/src/error.rs, and the results that fail with it.
use speechmesh.Common.{String, ◌⧺◌}

pub data BridgeError : Type 0 where
  unavailable disconnected protocol io : String → BridgeError

-- `to_string`, by the derived `Display`
unfoldable pub display : BridgeError → String
display (unavailable m) = "bridge unavailable: " ⧺ m
display (disconnected m) = "bridge disconnected: " ⧺ m
display (protocol m) = "bridge protocol error: " ⧺ m
display (io m) = "bridge io error: " ⧺ m

pub data Result {ℓ} (A : Type ℓ) : Type ℓ where
  ok : A → Result A
  err : BridgeError → Result A
