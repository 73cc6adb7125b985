-- ===== src/Rates/Cutting.antt =====
-- src/services/RateLimitTracker.ts: a list of times that is cut to the window.
use kovael.Common.{ℕ, ◌+◌, ◌≤◌, ◌≡◌, refl, List, [], ◌∷◌, ◌++◌, arith, ltb, if◌then◌else◌}
use kovael.Rates.{prune}

-- The times that are still in the window.
abbrev pub in_window : ℕ → ℕ → List ℕ → List ℕ
in_window window now [] = []
in_window window now (x ∷ xs) =
    let rest = in_window window now xs in if ltb (x + window) now then rest else x ∷ rest

abbrev pub Before : ℕ → List ℕ → Type 0
Before now [] = Unit
Before now (x ∷ xs) = (x ≤ now) × Before now xs

pub Before-later : (xs : List ℕ) (s t : ℕ) → s ≤ t → Before s xs → Before t xs
Before-later [] s t h b = tt
Before-later (x ∷ xs) s t h b = (omega (arith, b.0), Before-later xs s t h b.1)

pub Before-append : (xs : List ℕ) (t : ℕ) → Before t xs → Before t (xs ++ t ∷ [])
Before-append [] t b = (omega arith, tt)
Before-append (x ∷ xs) t b = (b.0, Before-append xs t b.1)

-- A list that was cut earlier is cut now as the whole one is.
pub prune-prune : (w s t : ℕ) (xs : List ℕ) → s ≤ t → prune w t (prune w s xs) ≡ prune w t xs
unfolding prune
prune-prune w s t [] h = refl
prune-prune w s t (x ∷ xs) h = ground (arith, prune-prune w s t xs h)

pub in_window-append :
    (w now t : ℕ) (xs : List ℕ)
    → in_window w now (xs ++ t ∷ []) ≡ in_window w now xs ++ in_window w now (t ∷ [])
in_window-append w now t [] = refl
in_window-append w now t (x ∷ xs) = ground (arith, in_window-append w now t xs)

-- A dispatch that is no older than the others stays at the end of the cut list, unless it is
-- too old itself, with all the others.
pub prune-append :
    (w now t : ℕ) (xs : List ℕ)
    → Before t xs
    → prune w now (xs ++ t ∷ []) ≡ prune w now xs ++ in_window w now (t ∷ [])
unfolding prune
prune-append w now t [] b = ground arith
prune-append w now t (x ∷ xs) b = ground (arith, prune-append w now t xs b.1)

pub Before-prune : (w now t : ℕ) (xs : List ℕ) → Before t xs → Before t (prune w now xs)
unfolding prune
Before-prune w now t [] b = tt
Before-prune w now t (x ∷ xs) b = ground (arith, Before-prune w now t xs b.1)
