-- ===== src/Examples/DispatchRuns.antt =====
-- src/MeshOrchestrator.ts: two dispatches, of which one has finished.
use kovael.Common.{true, ◌≡◌, refl, some, List, [], ◌∷◌}
use kovael.Dispatches.{DispatchEvent, started, attempted, succeeded, empty, run, contains}
use kovael.Dispatches.Inflight.{Distinct, IsCounted, run-in_flight}

abbrev events : List DispatchEvent
events =
    started (some "q1")
    ∷ attempted (some 1)
    ∷ started (some "q2")
    ∷ attempted (some 2)
    ∷ succeeded (some "q1")
    ∷ []

one_left : (run empty events).active ≡ "q2" ∷ []
unfolding run
one_left = refl

run-in_flight_example :
    (contains "q2" (run empty events).active ≡ true)
    × Distinct (run empty events).active
    × IsCounted (run empty events)
run-in_flight_example = run-in_flight events "q2" refl (refl, tt)
