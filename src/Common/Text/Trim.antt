-- ===== src/Common/Text/Trim.antt =====
-- A trimmed text is trimmed no further.
use Prim.Native.String.{String, [], ◌∷◌}
use mathlib.Core.Bool.{Bool, true, not}
use mathlib.Core.Path.{◌≡◌, refl, ap, ◌∙◌}
use native.Mathlib.Omega.{arith}
use speechmesh.Common.Text.{is_whitespace, trim_start, trim_end, trim}

abbrev starts_solid : String → Bool
starts_solid [] = true
starts_solid (c ∷ s) = not (is_whitespace c)

trim_start-solid : (s : String) → starts_solid (trim_start s) ≡ true
unfolding trim_start
trim_start-solid [] = refl
trim_start-solid (c ∷ s) = ground (arith, trim_start-solid s)

trim_start-fixed : (s : String) → starts_solid s ≡ true → trim_start s ≡ s
unfolding trim_start
trim_start-fixed [] h = refl
trim_start-fixed (c ∷ s) h = ground (arith, h)

trim_end-solid : (s : String) → starts_solid s ≡ true → starts_solid (trim_end s) ≡ true
unfolding trim_end
trim_end-solid [] h = refl
trim_end-solid (c ∷ s) h = ground (arith, h)

trim_end-trim_end : (s : String) → trim_end (trim_end s) ≡ trim_end s
unfolding trim_end
trim_end-trim_end [] = refl
trim_end-trim_end (c ∷ s) = ground (arith, trim_end-trim_end s)

pub trim-trim : (s : String) → trim (trim s) ≡ trim s
unfolding trim
trim-trim s =
    ap trim_end (trim_start-fixed (trim s) (trim_end-solid (trim_start s) (trim_start-solid s)))
    ∙ trim_end-trim_end (trim_start s)
