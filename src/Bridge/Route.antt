-- ===== src/Bridge/Route.antt =====
-- src/MevBridge.ts: when the primary architect is chosen.
use kovael.Common.{ℕ, ◌≡◌, Bool, not, ◌&&◌, List, [], arith, leb, ltb, length, if◌then◌else◌}
use kovael.Rates.{create, run, Config, Call, provider_blocks}
use kovael.Rates.Cutting.{in_window}
use kovael.Rates.Window.{can_dispatch-window, history, Ticks}
use kovael.Bridge.{Bridge, route_architect, ask_rates, choose, set_rate_limit_tracker}

-- The primary architect is given a task only if it may be dispatched, and the free memory of the
-- graphics card is known and reaches the floor.
abbrev pub is_authorized : Bridge → Config → List (ℕ × Call) → ℕ → Bool
is_authorized b cfg cs now =
    (not (provider_blocks (run (create cfg) cs) b.primary_architect now)
      && ltb (length (in_window cfg.window_ms now (history b.primary_architect [] cs)))
          cfg.max_per_window)
    && (b.vram_known && leb b.vram_floor_mb b.vram_free_mb)

-- With a tracker that has seen any calls on a clock that does not run backwards, a task is routed
-- to the primary architect if no provider limit holds it back, fewer of its dispatches than the
-- maximum are within the window, and the free memory is known and reaches the floor; and else to
-- the fallback agent.
pub route_architect-window :
    (b : Bridge) (cfg : Config) (cs : List (ℕ × Call)) (now : ℕ)
    → Ticks 0 cs now
    → (route_architect (set_rate_limit_tracker b (run (create cfg) cs)) now).1.agent
      ≡ (if is_authorized b cfg cs now then b.primary_architect else b.fallback_agent)
unfolding route_architect ask_rates choose set_rate_limit_tracker
route_architect-window b cfg cs now k =
    ground (arith, can_dispatch-window cfg cs b.primary_architect now k)
