-- ===== src/Shared/Text.antt =====
-- The order `>` of JavaScript on texts: by UTF-16 code units, the first difference decides.
use Prim.Native.Nat.{ℕ, ◌+◌, ◌-◌, ◌/◌, ◌%◌}
use Prim.Native.Char.{code}
use Prim.Native.String.{String}
use mathlib.Core.Path.{◌≡◌, refl}
use mathlib.Core.Bool.{Bool, true, false, ◌&&◌, ◌||◌}
use mathlib.Core.List.{List, [], ◌∷◌, ◌++◌}
use native.Mathlib.Omega.{arith}
use libeam.Shared.Tests.{ltb, ◌==◌, if◌then◌else◌}

-- One unit, or a pair of surrogates.
unfoldable pub units_of : ℕ → List ℕ
units_of c =
    if ltb c 0x10000
    then c ∷ []
    else ((0xd800 + (c - 0x10000) / 0x400) ∷ (0xdc00 + (c - 0x10000) % 0x400) ∷ [])

unfoldable pub units : String → List ℕ
unfolding units_of
units String.[] = []
units (String.◌∷◌ c s) = units_of (code c) ++ units s

units_gt : List ℕ → List ℕ → Bool
units_gt [] ys = false
units_gt (x ∷ xs) [] = true
units_gt (x ∷ xs) (y ∷ ys) = ltb y x || (x == y && units_gt xs ys)

unfoldable pub str_gt : String → String → Bool
unfolding units units_gt
str_gt s t = units_gt (units s) (units t)

units_gt_asym : (xs ys : List ℕ) → units_gt xs ys ≡ true → units_gt ys xs ≡ false
unfolding units_gt
units_gt_asym [] ys h = cc
units_gt_asym (x ∷ xs) [] h = refl
units_gt_asym (x ∷ xs) (y ∷ ys) h = ground (arith, units_gt_asym xs ys)

units_gt_irrefl : (xs : List ℕ) → units_gt xs xs ≡ false
unfolding units_gt
units_gt_irrefl [] = refl
units_gt_irrefl (x ∷ xs) = ground (arith, units_gt_irrefl xs)

pub str_gt_asym : (s t : String) → str_gt s t ≡ true → str_gt t s ≡ false
unfolding str_gt
str_gt_asym s t h = units_gt_asym (units s) (units t) h

pub str_gt_irrefl : (s : String) → str_gt s s ≡ false
unfolding str_gt
str_gt_irrefl s = units_gt_irrefl (units s)
