-- ===== src/Examples/TriadRuns.antt =====
-- src/protocols/TriadStateMachine.ts: a cycle that fails on the operator.
use kovael.Common.{ℕ, ◌≡◌, refl, none, List, [], ◌∷◌}
use kovael.Triad.{
  Request, Phase, dispatch_to_architect, architect_streaming, succeeded, failed, start, run, step,
  trail,
}
use kovael.Triad.Trail.{run-TrailOf, TrailOf, phases}

abbrev asks_for : Phase → ℕ → Request
asks_for p t = record { next = p; now = t; routed_agent = none; note = none }

-- The second request skips a phase and is refused.
abbrev requests : List Request
requests =
    asks_for dispatch_to_architect 1
    ∷ asks_for succeeded 2
    ∷ asks_for architect_streaming 3
    ∷ asks_for failed 4
    ∷ []

ends_failed : (run (start "c1" "t1" 0) requests).phase ≡ failed
unfolding run start step
ends_failed = refl

run-TrailOf_example : TrailOf failed (phases (trail (run (start "c1" "t1" 0) requests)))
unfolding run start step
run-TrailOf_example = run-TrailOf "c1" "t1" 0 requests
