-- ===== src/Examples/BridgeRuns.antt =====
-- src/MevBridge.ts: a cycle that goes through, and one that is interrupted.
use kovael.Common.{
  ℕ, String, true, false, ◌≡◌, refl, Option, none, some, List, [], ◌∷◌, arith, if◌then◌else◌,
}
use kovael.Table.{get, set}
use kovael.Triad.{transition, start}
use kovael.Rates.{Config, Call, dispatches, run, step, create as create_tracker}
use kovael.Bridge.{Bridge, Message, create, route_architect, set_rate_limit_tracker, set_vram_free}
use kovael.Bridge.Execute.{Outside, Stage, in_verifier, execute}
use kovael.Bridge.Loop.{IsSettled, execute-IsSettled}
use kovael.Bridge.Route.{is_authorized, route_architect-window}

stops_in_verifier : Stage → Option String
stops_in_verifier in_verifier = some "span closed"
stops_in_verifier _ = none

abbrev outside : (Stage → Option String) → Outside
outside throws = record {
  task_hash = "t1";
  cycle_id = "c1";
  receipt_id = "r1";
  blueprint_json = "{}";
  result_json = "{}";
  details_json = "{}";
  evidence_json = "{}";
  clock = λ n. n;
  throws = throws;
}

abbrev history : List Message
history =
    record { role = "system"; content = "You are Nyx." }
    ∷ record { role = "user"; content = "one" }
    ∷ record { role = "user"; content = "two" }
    ∷ record { role = "user"; content = "three" }
    ∷ []

goes_through : (execute create (outside (λ s. none)) "bake" history).error ≡ none
unfolding execute transition start
goes_through = refl

is_interrupted :
    (execute create (outside stops_in_verifier) "bake" history).error ≡ some "span closed"
unfolding execute stops_in_verifier transition start
is_interrupted = refl

execute-IsSettled_example :
    IsSettled
      (outside stops_in_verifier)
      create
      (execute create (outside stops_in_verifier) "bake" history)
unfolding stops_in_verifier
execute-IsSettled_example = execute-IsSettled create (outside stops_in_verifier) "bake" history

abbrev one : Config
one = record { window_ms = 100; max_per_window = 1 }

abbrev calls : List (ℕ × Call)
calls = (10, dispatches "shaev") ∷ []

abbrev ready : Bridge
ready = set_vram_free create 9000 true

route_architect-window_example :
    (route_architect (set_rate_limit_tracker ready (run (create_tracker one) calls)) 50).1.agent
    ≡ (if is_authorized ready one calls 50 then "shaev" else "nyx-cli")
unfolding set_vram_free
route_architect-window_example =
    route_architect-window ready one calls 50 (omega arith, omega arith)

is_held_back : is_authorized ready one calls 50 ≡ false
unfolding run step set_vram_free get set
is_held_back = refl
