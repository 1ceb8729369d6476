-- ===== src/Common/Sorting.antt =====
-- The stable sorting of lists, and lists of items that stand under a text.
use Prim.Native.String.{String}
use mathlib.Core.Bool.{Bool, true, false}
use mathlib.Core.List.{List, [], ◌∷◌}
use mathlib.Core.Option.{Option, none, some}
use mathlib.Core.Path.{◌≡◌, refl}
use native.Mathlib.Omega.{arith}
use text.Mathlib.Text.{◌==◌}
use text.Mathlib.TextEquality.{eq_iff}
use speechmesh.Common.Tests.{if◌then◌else◌}
use speechmesh.Common.Order.{text_leb}

-- `sort_by`, with `le` for "not greater".
module _ {ℓ} {A : Type ℓ} (le : A → A → Bool) where
  insert_sorted : A → List A → List A
  insert_sorted x [] = x ∷ []
  insert_sorted x (y ∷ ys) =
      let rest = insert_sorted x ys in if le x y then x ∷ y ∷ ys else y ∷ rest

  unfoldable pub sort_by : List A → List A
  unfolding insert_sorted
  sort_by [] = []
  sort_by (x ∷ xs) = insert_sorted x (sort_by xs)

module _ {ℓ} {A : Type ℓ} (key : A → String) where
  -- The first item under a key.
  abbrev pub find_key : String → List A → Option A
  find_key k [] = none
  find_key k (x ∷ xs) = if key x == k then some x else find_key k xs

  pub find_key-key : (k : String) (xs : List A) (x : A) → find_key k xs ≡ some x → key x ≡ k
  find_key-key k [] x h = cc
  find_key-key k (y ∷ ys) x h = ground (arith, eq_iff (key y) k, find_key-key k ys x)

  -- No two items under one key.
  abbrev pub IsUnique : List A → Type ℓ
  IsUnique [] = Unit
  IsUnique (x ∷ xs) = (find_key (key x) xs ≡ none) × IsUnique xs

  abbrev pub IsOrdered : List A → Type 0
  IsOrdered [] = Unit
  IsOrdered (x ∷ []) = Unit
  IsOrdered (x ∷ y ∷ ys) = (text_leb (key x) (key y) ≡ true) × IsOrdered (y ∷ ys)

module _ {ℓ} {A : Type ℓ} (key : A → String) (le : A → A → Bool) where
  find_key-insert_sorted :
      (k : String) (x : A) (xs : List A)
      → find_key key (key x) xs ≡ none
      → find_key key k (insert_sorted le x xs) ≡ find_key key k (x ∷ xs)
  unfolding insert_sorted
  find_key-insert_sorted k x [] h = refl
  find_key-insert_sorted k x (y ∷ ys) h = ground (
    arith,
    eq_iff (key y) (key x),
    eq_iff (key x) k,
    eq_iff (key y) k,
    find_key-insert_sorted k x ys,
  )

  insert_sorted-IsUnique :
      (x : A) (xs : List A) → IsUnique key (x ∷ xs) → IsUnique key (insert_sorted le x xs)
  unfolding insert_sorted
  insert_sorted-IsUnique x [] u = u
  insert_sorted-IsUnique x (y ∷ ys) u = ground (
    arith,
    eq_iff (key y) (key x),
    eq_iff (key x) (key y),
    find_key-insert_sorted (key y) x ys,
    insert_sorted-IsUnique x ys,
  )

  -- A search does not see the sorting, where the keys are unique.
  pub find_key-sort_by :
      (k : String) (xs : List A)
      → IsUnique key xs
      → find_key key k (sort_by le xs) ≡ find_key key k xs
  unfolding sort_by
  find_key-sort_by k [] u = refl
  find_key-sort_by k (x ∷ xs) u = ground (
    arith,
    find_key-insert_sorted k x (sort_by le xs),
    find_key-sort_by k xs u.1,
    find_key-sort_by (key x) xs u.1,
  )

  pub sort_by-IsUnique : (xs : List A) → IsUnique key xs → IsUnique key (sort_by le xs)
  unfolding sort_by
  sort_by-IsUnique [] u = tt
  sort_by-IsUnique (x ∷ xs) u =
      insert_sorted-IsUnique x (sort_by le xs)
        (rw (find_key-sort_by (key x) xs u.1) u.0, sort_by-IsUnique xs u.1)

  module _ (lower : (x y : A) → le x y ≡ true → text_leb (key x) (key y) ≡ true)
      (higher : (x y : A) → le x y ≡ false → text_leb (key y) (key x) ≡ true) where
    insert_sorted-IsOrdered :
        (x : A) (xs : List A) → IsOrdered key xs → IsOrdered key (insert_sorted le x xs)
    unfolding insert_sorted
    insert_sorted-IsOrdered x [] o = tt
    insert_sorted-IsOrdered x (y ∷ []) o = ground (arith, lower x y, higher x y)
    insert_sorted-IsOrdered x (y ∷ z ∷ zs) o =
        ground (arith, lower x y, higher x y, insert_sorted-IsOrdered x (z ∷ zs) o.1)

    pub sort_by-IsOrdered : (xs : List A) → IsOrdered key (sort_by le xs)
    unfolding sort_by
    sort_by-IsOrdered [] = tt
    sort_by-IsOrdered (x ∷ xs) = insert_sorted-IsOrdered x (sort_by le xs) (sort_by-IsOrdered xs)
