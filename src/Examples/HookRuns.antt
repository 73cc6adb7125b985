-- ===== src/Examples/HookRuns.antt =====
-- src/services/HookRunner.ts: a hook that fails, and one that waits too long.
use kovael.Common.{String, Bool, true, false, not, ◌≡◌, refl, none, some, List, [], ◌∷◌, map}
use kovael.Hooks.{
  Behaviour, Runner, HookResult, before_run, create, register, run, run_one, should_abort, aborts,
}
use kovael.Hooks.Abort.{run-should_abort, until_failure, all_well}

abbrev quick : String → Behaviour
quick s = record { sync_ms = 1; async_ms = 2; throws = none }

abbrev broken : String → Behaviour
broken s = record { sync_ms = 1; async_ms = 0; throws = some s }

abbrev slow : String → Behaviour
slow s = record { sync_ms = 1; async_ms = 900; throws = none }

hooks : Runner String
unfolding register
hooks =
    register
      (register (register (create String) "lint" before_run quick none) "build" before_run slow
        (some 500))
      "late" before_run broken none

is_timed_out : List HookResult → List Bool
is_timed_out = map (λ r. r.timed_out)

stops_at_timeout : is_timed_out (run hooks before_run "c1").1 ≡ false ∷ true ∷ []
unfolding hooks is_timed_out run register
stops_at_timeout = refl

run-should_abort_example :
    ((run hooks before_run "c1").1
      ≡ until_failure (map (λ h. run_one h "c1") (hooks.handlers before_run)))
    × (should_abort before_run (run hooks before_run "c1").1
        ≡ not (all_well "c1" (hooks.handlers before_run)))
unfolding aborts
run-should_abort_example = run-should_abort hooks before_run "c1"
