-- ===== src/Common/Spaces.antt =====
-- JavaScript's `trim`, and texts cut at a prefix.
use Prim.Native.Nat.{ℕ, zero, suc, compare, Ordering}
use Prim.Native.Char.{code}
use Prim.Native.String.{String}
use text.Mathlib.Text.{◌==◌ as str_eq}
use text.Mathlib.TextEquality.{eq_iff}
use mathlib.Core.Bool.{Bool, true, false, ◌&&◌, ◌||◌}
use mathlib.Core.Path.{◌≡◌, refl, ap, ◌∙◌, sym}
use mathlib.Core.Option.{Option, none, some}
use kovael.Common.Decimal.{◌+++◌}

within : ℕ → ℕ → ℕ → Bool
within a b c = elim (compare a c) [
  | Ordering.gt ↦ false
  | _ ↦ elim (compare c b) [ Ordering.gt ↦ false | _ ↦ true ]
]

-- White space and line terminators.
unfoldable pub is_space : ℕ → Bool
unfolding within
is_space c =
    within 9 13 c
    || within 32 32 c
    || within 160 160 c
    || within 5760 5760 c
    || within 8192 8202 c
    || within 8232 8233 c
    || within 8239 8239 c
    || within 8287 8287 c
    || within 12288 12288 c
    || within 65279 65279 c

choose : Bool → String → String → String
choose true s t = s
choose false s t = t

unfoldable pub trim_start : String → String
unfolding is_space choose
trim_start String.[] = String.[]
trim_start (String.◌∷◌ c s) = choose (is_space (code c)) (trim_start s) (String.◌∷◌ c s)

unfoldable pub trim_end : String → String
unfolding is_space choose
trim_end String.[] = String.[]
trim_end (String.◌∷◌ c s) =
    choose (str_eq (trim_end s) "" && is_space (code c)) String.[] (String.◌∷◌ c (trim_end s))

unfoldable pub trim : String → String
unfolding trim_start trim_end
trim s = trim_end (trim_start s)

unfoldable pub chars : String → ℕ
chars String.[] = 0
chars (String.◌∷◌ c s) = suc (chars s)

unfoldable pub first_chars : ℕ → String → String
first_chars zero s = String.[]
first_chars (suc n) String.[] = String.[]
first_chars (suc n) (String.◌∷◌ c s) = String.◌∷◌ c (first_chars n s)

unfoldable pub rest_chars : ℕ → String → String
rest_chars zero s = s
rest_chars (suc n) String.[] = String.[]
rest_chars (suc n) (String.◌∷◌ c s) = rest_chars n s

kept : Bool → String → Option String
kept true s = some s
kept false s = none

-- `s.startsWith(p)`, with `s.slice(p.length)`.
unfoldable pub after_prefix : String → String → Option String
unfolding chars first_chars rest_chars kept
after_prefix p s = kept (str_eq (first_chars (chars p) s) p) (rest_chars (chars p) s)

first-rest : (n : ℕ) (s : String) → first_chars n s +++ rest_chars n s ≡ s
unfolding first_chars rest_chars ◌+++◌
first-rest zero s = refl
first-rest (suc n) String.[] = refl
first-rest (suc n) (String.◌∷◌ c s) = ap (λ t. String.◌∷◌ c t) (first-rest n s)

first_chars-prefix : (p s : String) → first_chars (chars p) (p +++ s) ≡ p
unfolding first_chars chars ◌+++◌
first_chars-prefix String.[] s = refl
first_chars-prefix (String.◌∷◌ c p) s = ap (λ t. String.◌∷◌ c t) (first_chars-prefix p s)

rest_chars-prefix : (p s : String) → rest_chars (chars p) (p +++ s) ≡ s
unfolding rest_chars chars ◌+++◌
rest_chars-prefix String.[] s = refl
rest_chars-prefix (String.◌∷◌ c p) s = rest_chars-prefix p s

kept-some : (b : Bool) (t r : String) → kept b t ≡ some r → (b ≡ true) × (t ≡ r)
unfolding kept
kept-some true t r h = (refl, cc)
kept-some false t r h = cc

pub after_prefix-some : (p s r : String) → after_prefix p s ≡ some r → s ≡ p +++ r
unfolding after_prefix
after_prefix-some p s r h =
    let (e, f) = kept-some (str_eq (first_chars (chars p) s) p) (rest_chars (chars p) s) r h in
    sym (first-rest (chars p) s)
    ∙ ap (λ t. t +++ rest_chars (chars p) s) ((eq_iff (first_chars (chars p) s) p).0 e)
    ∙ ap (λ t. p +++ t) f

pub after_prefix-append : (p s : String) → after_prefix p (p +++ s) ≡ some s
unfolding after_prefix kept
after_prefix-append p s =
    rw (first_chars-prefix p s, rest_chars-prefix p s, (eq_iff p p).1 refl) refl
