-- ===== src/Common/Text.antt =====
-- `s.slice(0, n)`: JavaScript counts UTF-16 units, two for a character outside the basic plane.
-- Where the cut would fall inside such a character the model drops the character whole.
use Prim.Native.Nat.{ℕ, ◌+◌, ◌-◌, ◌≤◌, compare, Ordering}
use Prim.Native.Char.{Char, code}
use Prim.Native.String.{String}
use mathlib.Core.Bool.{Bool, true, false}
use mathlib.Core.Path.{◌≡◌, refl}
use native.Mathlib.Omega.{arith}

abbrev pub width_of : ℕ → ℕ
width_of c = elim (compare c 65536) [ Ordering.lt ↦ 1 | _ ↦ 2 ]

unfoldable pub units : String → ℕ
units String.[] = 0
units (String.◌∷◌ c s) = width_of (code c) + units s

abbrev fits : ℕ → ℕ → Bool
fits w n = elim (compare n w) [ Ordering.lt ↦ false | _ ↦ true ]

keep : Bool → Char → String → String
keep true c rest = String.◌∷◌ c rest
keep false c rest = String.[]

unfoldable pub clip : ℕ → String → String
unfolding keep
clip n String.[] = String.[]
clip n (String.◌∷◌ c s) = keep (fits (width_of (code c)) n) c (clip (n - width_of (code c)) s)

units-keep-le :
    (b : Bool) (n : ℕ) (c : Char) (rest : String)
    → fits (width_of (code c)) n ≡ b
    → units rest ≤ n - width_of (code c)
    → units (keep b c rest) ≤ n
unfolding units keep
units-keep-le true n c rest e h = ground arith
units-keep-le false n c rest e h = omega arith

pub units-clip-le : (n : ℕ) (s : String) → units (clip n s) ≤ n
unfolding units clip
units-clip-le n String.[] = omega arith
units-clip-le n (String.◌∷◌ c s) =
    units-keep-le (fits (width_of (code c)) n) n c (clip (n - width_of (code c)) s) refl
      (units-clip-le (n - width_of (code c)) s)
