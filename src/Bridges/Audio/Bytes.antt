-- ===== src/Bridges/Audio/Bytes.antt =====
-- The checked arithmetic and the little-endian bytes that bridges/src/asr/mod.rs takes from Rust's
-- integers, and readers of such bytes.
use speechmesh.Common.{
  ℕ, zero, suc, ◌+◌, ◌*◌, ◌/◌, ◌%◌, ◌^◌, ◌<◌, ◌≤◌, ◌≡◌, refl, ap, Option, none, some, List, [], ◌∷◌,
  ◌++◌, if◌then◌else◌, ltb, beq, and_then, length, arith,
}

-- `checked_mul` and `checked_add` of an integer of `w` bits.
unfoldable pub checked_mul : ℕ → ℕ → ℕ → Option ℕ
checked_mul w a b = if ltb (a * b) (2 ^ w) then some (a * b) else none

unfoldable pub checked_add : ℕ → ℕ → ℕ → Option ℕ
checked_add w a b = if ltb (a + b) (2 ^ w) then some (a + b) else none

-- `to_le_bytes` of an integer of so many bytes.
unfoldable pub to_le_bytes : ℕ → ℕ → List ℕ
to_le_bytes zero v = []
to_le_bytes (suc n) v = v % 256 ∷ to_le_bytes n (v / 256)

-- Readers, from the front.
unfoldable pub read_le : ℕ → List ℕ → Option (ℕ × List ℕ)
read_le zero bytes = some (0, bytes)
read_le (suc n) [] = none
read_le (suc n) (b ∷ bytes) =
    and_then (read_le n bytes) λ (more : ℕ × List ℕ). some (b + 256 * more.0, more.1)

unfoldable pub read_exactly : List ℕ → List ℕ → Option (List ℕ)
read_exactly [] bytes = some bytes
read_exactly (e ∷ es) [] = none
read_exactly (e ∷ es) (b ∷ bytes) = if beq e b then read_exactly es bytes else none

pub read_le-to_le_bytes :
    (n v : ℕ) (rest : List ℕ) → v < 256 ^ n → read_le n (to_le_bytes n v ++ rest) ≡ some (v, rest)
unfolding read_le to_le_bytes
read_le-to_le_bytes zero v rest h = let e : v ≡ 0 = omega arith in rw e refl
read_le-to_le_bytes (suc n) v rest h =
    rw (read_le-to_le_bytes n (v / 256) rest (grind arith))
      (ap (λ (w : ℕ). some (w, rest)) (omega arith))

pub length-to_le_bytes : (n v : ℕ) → length (to_le_bytes n v) ≡ n
unfolding to_le_bytes
length-to_le_bytes zero v = refl
length-to_le_bytes (suc n) v = omega (arith, length-to_le_bytes n (v / 256))

pub read_exactly_lem : (bytes rest : List ℕ) → read_exactly bytes (bytes ++ rest) ≡ some rest
unfolding read_exactly
read_exactly_lem [] rest = refl
read_exactly_lem (b ∷ bytes) rest = ground (arith, read_exactly_lem bytes rest)

pub checked_mul_lem : (w a b : ℕ) → a * b < 2 ^ w → checked_mul w a b ≡ some (a * b)
unfolding checked_mul
checked_mul_lem w a b h = ground (arith, h)

pub checked_mul-over : (w a b : ℕ) → 2 ^ w ≤ a * b → checked_mul w a b ≡ none
unfolding checked_mul
checked_mul-over w a b h = ground (arith, h)
