-- ===== src/Common/HashMap/Distinct.antt =====
-- Maps in which a key stands once: what their values and keys say of `get`.
use Prim.Native.String.{String}
use mathlib.Core.Bool.{Bool, true, false}
use mathlib.Core.List.{List, [], ◌∷◌}
use mathlib.Core.Logic.{inl, inr}
use mathlib.Core.Option.{Option, none, some}
use mathlib.Core.Path.{◌≡◌, refl}
use native.Mathlib.Omega.{arith}
use text.Mathlib.TextEquality.{eq_iff}
use text.Mathlib.TextPositions.{eq_refl}
use speechmesh.Common.Tests.{if◌then◌else◌, Bool-cases}
use speechmesh.Common.Lists.{has_text, find}
use speechmesh.Common.HashMap.{
  HashMap, get, insert, remove, values, keys_where, remove_all, get-insert, get-remove,
  get-remove_all,
}

module _ {ℓ} {V : Type ℓ} where
  -- Every key stands in one entry.
  abbrev pub IsDistinct : HashMap V → Type ℓ
  IsDistinct [] = Unit
  IsDistinct ((k, v) ∷ m) = (get k m ≡ none) × IsDistinct m

  pub insert-IsDistinct :
      (k : String) (v : V) (m : HashMap V) → IsDistinct m → IsDistinct (insert k v m)
  unfolding insert
  insert-IsDistinct k v [] d = (unfold get in refl, tt)
  insert-IsDistinct k v ((j, w) ∷ m) d =
      ground (arith, eq_iff j k, eq_iff k j, get-insert k j v m, insert-IsDistinct k v m d.1)

  pub remove-IsDistinct : (k : String) (m : HashMap V) → IsDistinct m → IsDistinct (remove k m)
  unfolding remove
  remove-IsDistinct k [] d = tt
  remove-IsDistinct k ((j, w) ∷ m) d = ground (arith, get-remove k j m, remove-IsDistinct k m d.1)

  pub remove_all-IsDistinct :
      (ks : List String) (m : HashMap V) → IsDistinct m → IsDistinct (remove_all ks m)
  unfolding remove_all
  remove_all-IsDistinct [] m d = d
  remove_all-IsDistinct (k ∷ ks) m d =
      remove_all-IsDistinct ks (remove k m) (remove-IsDistinct k m d)

  -- Whether there is a value and it passes a test.
  abbrev pub holds : (V → Bool) → Option V → Bool
  holds p none = false
  holds p (some v) = p v

  -- `none` in place of a value that passes a test.
  abbrev pub drop_if : (V → Bool) → Option V → Option V
  drop_if p none = none
  drop_if p (some v) = if p v then none else some v

  pub has_text-keys_where :
      (p : V → Bool) (j : String) (m : HashMap V)
      → IsDistinct m
      → has_text (keys_where p m) j ≡ holds p (get j m)
  unfolding keys_where get
  has_text-keys_where p j [] d = refl
  has_text-keys_where p j ((k, v) ∷ m) d = ground (arith, eq_iff k j, has_text-keys_where p j m d.1)

  -- Removing the keys whose value passes a test leaves the other entries as they were.
  pub get-remove_all-keys_where :
      (p : V → Bool) (j : String) (m : HashMap V)
      → IsDistinct m
      → get j (remove_all (keys_where p m) m) ≡ drop_if p (get j m)
  get-remove_all-keys_where p j m d =
      ground (arith, get-remove_all (keys_where p m) j m, has_text-keys_where p j m d)

  -- What a search of the values finds is an entry that passes the test.
  pub find-values-some :
      (p : V → Bool) (m : HashMap V) (v : V)
      → IsDistinct m
      → find p (values m) ≡ some v
      → (k : String) × (get k m ≡ some v) × (p v ≡ true)
  unfolding values get
  find-values-some p [] v d h = cc
  find-values-some p ((k, w) ∷ m) v d h = elim (Bool-cases (p w)) [
    | inl hit ↦ (k, rw (eq_refl k) (ground arith), ground arith)
    | inr miss ↦
        let (j, at, pass) = find-values-some p m v d.1 (rw miss at h) in
        (j, ground (arith, eq_iff k j), pass)
  ]

  -- A search that finds nothing has seen every entry fail the test.
  pub find-values-none :
      (p : V → Bool) (m : HashMap V) (k : String) (v : V)
      → find p (values m) ≡ none
      → get k m ≡ some v
      → p v ≡ false
  unfolding values get
  find-values-none p [] k v h e = cc
  find-values-none p ((j, w) ∷ m) k v h e = ground (arith, find-values-none p m k v)
