-- ===== src/Common/Slices.antt =====
-- The parts of a list: `chunks` of a slice.
use Prim.Native.Nat.{ℕ, zero, suc, ◌+◌, ◌-◌, ◌<◌, ◌≤◌}
use mathlib.Core.List.{List, [], ◌∷◌, ◌++◌}
use mathlib.Core.Path.{◌≡◌, refl, ap, ◌∙◌}
use native.Mathlib.Omega.{arith}
use speechmesh.Common.Lists.{length}

module _ {ℓ} {A : Type ℓ} where
  unfoldable pub take : ℕ → List A → List A
  take zero xs = []
  take (suc n) [] = []
  take (suc n) (x ∷ xs) = x ∷ take n xs

  unfoldable pub drop : ℕ → List A → List A
  drop zero xs = xs
  drop (suc n) [] = []
  drop (suc n) (x ∷ xs) = drop n xs

  -- `chunks(size)` of a slice: each part takes at least one item, so the items bound the parts.
  unfoldable pub chunks_on : ℕ → ℕ → List A → List (List A)
  unfolding take drop
  chunks_on fuel size [] = []
  chunks_on zero size (x ∷ xs) = []
  chunks_on (suc fuel) size (x ∷ xs) = take size (x ∷ xs) ∷ chunks_on fuel size (drop size (x ∷ xs))

  unfoldable pub chunks : ℕ → List A → List (List A)
  unfolding chunks_on
  chunks size xs = chunks_on (length xs) size xs

module _ {ℓ} {A : Type ℓ} where
  pub take-append-drop : (n : ℕ) (xs : List A) → take n xs ++ drop n xs ≡ xs
  unfolding take drop
  take-append-drop zero xs = refl
  take-append-drop (suc n) [] = refl
  take-append-drop (suc n) (x ∷ xs) = ap (x ∷◌) (take-append-drop n xs)

  pub take_all : (n : ℕ) (xs : List A) → length xs ≤ n → (take n xs ≡ xs) × (drop n xs ≡ [])
  unfolding take drop
  take_all zero [] h = (refl, refl)
  take_all zero (x ∷ xs) h = absurd (omega (arith, h))
  take_all (suc n) [] h = (refl, refl)
  take_all (suc n) (x ∷ xs) h = let (t, d) = take_all n xs (omega (arith, h)) in (ap (x ∷◌) t, d)

  pub length-take :
      (n : ℕ) (xs : List A)
      → n ≤ length xs
      → (length (take n xs) ≡ n) × (length (drop n xs) + n ≡ length xs)
  unfolding take drop
  length-take zero xs h = (refl, omega arith)
  length-take (suc n) [] h = absurd (omega (arith, h))
  length-take (suc n) (x ∷ xs) h =
      let (t, d) = length-take n xs (omega (arith, h)) in (omega (arith, t), omega (arith, d))

unfoldable pub concat {ℓ} : {A : Type ℓ} → List (List A) → List A
concat [] = []
concat (part ∷ parts) = part ++ concat parts

module _ {ℓ} {A : Type ℓ} where
  length-drop : (n : ℕ) (xs : List A) → length (drop n xs) ≡ length xs - n
  unfolding drop
  length-drop zero xs = omega arith
  length-drop (suc n) [] = omega arith
  length-drop (suc n) (x ∷ xs) = omega (arith, length-drop n xs)

  concat-chunks_on :
      (fuel size : ℕ) (xs : List A)
      → 0 < size
      → length xs ≤ fuel
      → concat (chunks_on fuel size xs) ≡ xs
  unfolding concat chunks_on
  concat-chunks_on fuel size [] pos h = refl
  concat-chunks_on zero size (x ∷ xs) pos h = absurd (omega (arith, h))
  concat-chunks_on (suc fuel) size (x ∷ xs) pos h =
      ap (λ (ys : List A). take size (x ∷ xs) ++ ys)
        (concat-chunks_on fuel size (drop size (x ∷ xs)) pos
          (omega (arith, h, pos, length-drop size (x ∷ xs))))
      ∙ take-append-drop size (x ∷ xs)

  -- The parts put together.
  pub concat-chunks : (size : ℕ) (xs : List A) → 0 < size → concat (chunks size xs) ≡ xs
  unfolding chunks
  concat-chunks size xs pos = concat-chunks_on (length xs) size xs pos (omega arith)
