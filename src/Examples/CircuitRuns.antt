-- ===== src/Examples/CircuitRuns.antt =====
-- src/services/CircuitBreaker.ts: an agent that fails three times.
use kovael.Common.{ℕ, ◌≡◌, refl, String, false, List, [], ◌∷◌, arith}
use kovael.Table.{get, set}
use kovael.Circuit.{
  Breaker, asks, succeeds, create, default_config, ensure, can_dispatch, step, run, is_open, emit,
  write,
}
use kovael.Circuit.Opening.{failures_of, run-blocked}

abbrev three_failures : List (ℕ × String)
three_failures = (1, "timeout") ∷ (2, "timeout") ∷ (3, "refused") ∷ []

abbrev opened : Breaker
opened = run (create default_config) (failures_of "a" three_failures)

run-blocked_example :
    (can_dispatch (run opened ((4, asks "a") ∷ (5, succeeds "b") ∷ [])) "a" 30_000).1 ≡ false
unfolding ensure run step get set emit write is_open
run-blocked_example =
    run-blocked opened ((4, asks "a") ∷ (5, succeeds "b") ∷ []) "a" 3 30_000 refl refl
      (omega arith, (refl, tt)) (omega arith)
