-- ===== src/Common/Decimal.antt =====
-- Texts put together: `${n}` for a whole number, and the joining of texts.
use Prim.Native.Nat.{ℕ, zero, suc, ◌/◌, ◌%◌, compare, Ordering}
use Prim.Native.String.{String}
use mathlib.Core.List.{List, [], ◌∷◌}

infixr 60 ◌+++◌
unfoldable pub ◌+++◌ : String → String → String
String.[] +++ t = t
String.◌∷◌ c s +++ t = String.◌∷◌ c (s +++ t)

unfoldable pub pick : ℕ → List String → String
pick n [] = ""
pick zero (s ∷ ss) = s
pick (suc n) (s ∷ ss) = pick n ss

unfoldable pub digit : ℕ → String
unfolding pick
digit n = pick n ("0" ∷ "1" ∷ "2" ∷ "3" ∷ "4" ∷ "5" ∷ "6" ∷ "7" ∷ "8" ∷ "9" ∷ [])

-- A number has fewer digits than itself plus one, which is the fuel of `decimal`.
unfoldable pub digits : ℕ → ℕ → String → String
unfolding digit ◌+++◌
digits zero n acc = acc
digits (suc fuel) n acc = elim (compare n 10) [
  | Ordering.lt ↦ digit n +++ acc
  | _ ↦ digits fuel (n / 10) (digit (n % 10) +++ acc)
]

unfoldable pub decimal : ℕ → String
unfolding digits
decimal n = digits (suc n) n ""
