-- ===== src/Common/Text.antt =====
-- The methods of `str` and the formatting that the program uses, on the native texts.
pub mod Trim
use Prim.Native.Nat.{ℕ, zero, suc, ◌+◌, ◌/◌, ◌%◌}
use Prim.Native.Char.{Char, code}
use Prim.Native.String.{String, [], ◌∷◌, ◌++◌}
use mathlib.Core.Bool.{Bool, true, false, ◌&&◌, ◌||◌}
use mathlib.Core.Logic.{inl, inr}
use mathlib.Core.Option.{Option, none, some}
use mathlib.Core.Path.{◌≡◌, refl}
use native.Mathlib.Omega.{arith}
use text.Mathlib.TextEquality.{Char-path}
use text.Mathlib.TextLemmas.{nil-append, cons-append}
use speechmesh.Common.Tests.{ltb, leb, beq, if◌then◌else◌, Bool-cases}

abbrev pub is_empty : String → Bool
is_empty [] = true
is_empty (c ∷ s) = false

pub is_empty-true : (s : String) → is_empty s ≡ true → s ≡ ""
is_empty-true [] e = refl
is_empty-true (c ∷ s) e = cc

-- `char::is_whitespace`: the code points with Unicode's property White_Space.
unfoldable pub is_whitespace : Char → Bool
is_whitespace ch =
    let c = code ch in
    (leb 9 c && leb c 13)
    || beq c 32
    || beq c 133
    || beq c 160
    || beq c 5760
    || (leb 8192 c && leb c 8202)
    || beq c 8232
    || beq c 8233
    || beq c 8239
    || beq c 8287
    || beq c 12288

trim_start : String → String
trim_start [] = []
trim_start (c ∷ s) = if is_whitespace c then trim_start s else c ∷ s

trim_end : String → String
trim_end [] = []
trim_end (c ∷ s) =
    let rest = trim_end s in if is_empty rest && is_whitespace c then [] else c ∷ rest

-- `str::trim`
unfoldable pub trim : String → String
unfolding trim_start trim_end is_whitespace
trim s = trim_end (trim_start s)

-- `str::strip_prefix`: what is left of a text behind a prefix of it.
unfoldable pub strip_prefix : String → String → Option String
strip_prefix [] s = some s
strip_prefix (c ∷ p) [] = none
strip_prefix (c ∷ p) (d ∷ s) =
    let rest = strip_prefix p s in if beq (code c) (code d) then rest else none

-- A stripped prefix gives the text back in front of what is left.
pub strip_prefix-append : (p s r : String) → strip_prefix p s ≡ some r → s ≡ p ++ r
unfolding strip_prefix
strip_prefix-append [] s r h = ground (arith, nil-append r)
strip_prefix-append (c ∷ p) [] r h = cc
strip_prefix-append (c ∷ p) (d ∷ s) r h = elim (Bool-cases (beq (code c) (code d))) [
  | inl same ↦
      let rest : s ≡ p ++ r = strip_prefix-append p s r (rw same at h) in
      let head : d ≡ c = Char-path d c (ground arith) in rw (cons-append c p r, rest, head)
  | inr other ↦ absurd (none_ne (rw other at h))
]
  where
    none_ne : none ≡ some r → ⊥
    none_ne e = cc

pub strip_prefix-of_append : (p r : String) → strip_prefix p (p ++ r) ≡ some r
unfolding strip_prefix
strip_prefix-of_append [] r = rw (nil-append r, strip_prefix)
strip_prefix-of_append (c ∷ p) r =
    rw (cons-append c p r, strip_prefix) (ground (arith, strip_prefix-of_append p r))

-- One letter by its place in the first alphabet, given in the second; others stay.
translate : String → String → Char → Char
translate [] to c = c
translate (u ∷ from) [] c = c
translate (u ∷ from) (l ∷ to) c = if beq (code c) (code u) then l else translate from to c

-- `str::to_ascii_lowercase`
unfoldable pub to_ascii_lowercase : String → String
unfolding translate
to_ascii_lowercase [] = []
to_ascii_lowercase (c ∷ s) =
    translate "ABCDEFGHIJKLMNOPQRSTUVWXYZ" "abcdefghijklmnopqrstuvwxyz" c ∷ to_ascii_lowercase s

digit : ℕ → String → String
digit n [] = []
digit zero (d ∷ ds) = d ∷ []
digit (suc n) (d ∷ ds) = digit n ds

-- The digits of `n`, in front of `acc`; a number has at most `n + 1` of them.
decimal_digits : ℕ → ℕ → String → String
unfolding digit
decimal_digits zero n acc = acc
decimal_digits (suc fuel) n acc =
    let acc' = digit (n % 10) "0123456789" ++ acc in
    let rest = decimal_digits fuel (n / 10) acc' in if ltb n 10 then acc' else rest

-- `{n}` in a format string
unfoldable pub show : ℕ → String
unfolding decimal_digits
show n = decimal_digits (n + 1) n ""

show_sequence : show 1204 ≡ "1204"
unfolding show
show_sequence = refl

trim_both : trim " \n streaming  " ≡ "streaming"
unfolding trim
trim_both = refl

lower : to_ascii_lowercase "Real-Time_2" ≡ "real-time_2"
unfolding to_ascii_lowercase
lower = refl
