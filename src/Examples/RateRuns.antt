-- ===== src/Examples/RateRuns.antt =====
-- src/services/RateLimitTracker.ts: an agent at its maximum, and later below it.
use kovael.Common.{ℕ, ◌≡◌, refl, false, not, ◌&&◌, ltb, length, List, [], ◌∷◌, arith}
use kovael.Table.{get, set}
use kovael.Rates.{
  Call, Config, dispatches, asks, create, run, step, can_dispatch, provider_blocks, prune,
}
use kovael.Rates.Cutting.{in_window}
use kovael.Rates.Window.{can_dispatch-window, history}

abbrev two : Config
two = record { window_ms = 100; max_per_window = 2 }

abbrev calls : List (ℕ × Call)
calls =
    (10, dispatches "shaev")
    ∷ (20, dispatches "nyx")
    ∷ (30, dispatches "shaev")
    ∷ (40, asks "shaev")
    ∷ []

at_maximum : (can_dispatch (run (create two) calls) "shaev" 50).1 ≡ false
unfolding run step can_dispatch prune get set
at_maximum = refl

can_dispatch-window_example : (can_dispatch (run (create two) calls) "shaev" 111).1 ≡ (
    not (provider_blocks (run (create two) calls) "shaev" 111)
    && ltb (length (in_window 100 111 (history "shaev" [] calls))) 2)
can_dispatch-window_example =
    can_dispatch-window two calls "shaev" 111
      (omega arith, (omega arith, (omega arith, (omega arith, omega arith))))
