-- ===== src/Common/Order.antt =====
-- The order of texts: that of `str`, by the code points.
use Prim.Native.Nat.{Ordering}
use Prim.Native.String.{String, [], ◌∷◌, compare}
use Prim.Native.String.compare
use mathlib.Core.Bool.{Bool, true, false}
use mathlib.Core.Path.{◌≡◌, refl}
use native.Mathlib.Omega.{arith}

abbrev pub text_leb : String → String → Bool
text_leb s t = elim (compare s t) [ Ordering.gt ↦ false | _ ↦ true ]

abbrev pub text_ltb : String → String → Bool
text_ltb s t = elim (compare s t) [ Ordering.lt ↦ true | _ ↦ false ]

text_leb_refl : (s : String) → text_leb s s ≡ true
text_leb_refl [] = refl
text_leb_refl (c ∷ s) = rw (compare.cons-cons c c s s, text_leb) (ground (arith, text_leb_refl s))

pub text_leb_same : (s t : String) → s ≡ t → text_leb s t ≡ true
text_leb_same s t e = rw e (text_leb_refl t)

pub text_leb_total : (s t : String) → text_leb s t ≡ false → text_leb t s ≡ true
text_leb_total [] [] h = refl
text_leb_total [] (d ∷ t) h = absurd (ground (arith, rw (compare.nil-cons d t, text_leb) at h))
text_leb_total (c ∷ s) [] h = rw (compare.nil-cons c s, text_leb) refl
text_leb_total (c ∷ s) (d ∷ t) h =
    rw (compare.cons-cons d c t s, text_leb)
      (ground (arith, text_leb_total s t, rw (compare.cons-cons c d s t, text_leb) at h))

pub text_ltb-leb : (s t : String) → text_ltb s t ≡ true → text_leb s t ≡ true
text_ltb-leb s t h = ground arith
