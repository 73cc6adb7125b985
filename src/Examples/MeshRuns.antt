-- ===== src/Examples/MeshRuns.antt =====
-- src/MeshOrchestrator.ts: a task that succeeds, and one that throws and waits for its retry.
use kovael.Common.{◌+◌, String, true, false, ◌≡◌, refl, Option, none, some, List, [], ◌∷◌}
use kovael.Table.{get, set}
use kovael.Claims.{
  empty, released, retry_queued, try_claim, mark_running, release, mark_retry_queued,
}
use kovael.Retries.{Queue, default_config, enqueue_failure}
use kovael.Governor.{create as create_governor}
use kovael.Hooks.{create as create_hooks, run as run_hooks, should_abort}
use kovael.Triad.{PhaseEvent, dispatch_to_architect, preparing_context, transition, start}
use kovael.Bridge.{create as create_bridge}
use kovael.Bridge.Execute.{Outside, Stage, in_operator, execute}
use kovael.Mesh.{Mesh, Env, HookContext, inject_task}
use kovael.Mesh.Settling.{IsElsewhere, task_state}
use kovael.Mesh.Inject.{Answers, inject_task-settles}

abbrev queue : Queue
queue = record {
  cfg = default_config;
  claims = empty;
  pending = [];
  timer = false;
  dispatcher = none;
  emitted = [];
}

mesh : Mesh
mesh = record {
  queue = queue;
  governor = create_governor true (some 100) none 0;
  workspaces = [];
  hooks = create_hooks HookContext;
  bridge = create_bridge;
  active_cycles = [];
  token_totals = record { input = 0; output = 0; total = 0; runtime_ms = 0; cycles = 0 };
  receipts_issued = 0;
}

throws_never : Stage → Option String
throws_never s = none

throws_once : Stage → Option String
throws_once in_operator = some "no operator"
throws_once _ = none

abbrev outside : (Stage → Option String) → Outside
outside throws = record {
  task_hash = "t1";
  cycle_id = "x1";
  receipt_id = "r1";
  blueprint_json = "{}";
  result_json = "{}";
  details_json = "{}";
  evidence_json = "{}";
  clock = λ n. n;
  throws = throws;
}

-- Others only count a receipt of theirs.
abbrev env : (Stage → Option String) → Env
env throws = record {
  task_hash = "t1";
  cycle_id = "c1";
  clock = λ n. n;
  workspace = some "/work/c1";
  out = outside throws;
  others = λ i m. record m { receipts_issued = m.receipts_issued + 1 };
}

away : (throws : Stage → Option String) → IsElsewhere (env throws)
unfolding IsElsewhere
away throws i m = (refl, refl, refl)

is_released :
    task_state (env throws_never) (inject_task mesh (env throws_never) "bake").0 ≡ some released
unfolding inject_task mesh throws_never get set try_claim mark_running release should_abort
    run_hooks execute transition start
is_released = refl

waits :
    task_state (env throws_once) (inject_task mesh (env throws_once) "bake").0 ≡ some retry_queued
unfolding inject_task mesh throws_once get set try_claim mark_running mark_retry_queued
    enqueue_failure should_abort run_hooks execute transition start
waits = refl

inject_task-settles_example :
    Answers true (env throws_once) "bake" mesh (inject_task mesh (env throws_once) "bake")
unfolding mesh get
inject_task-settles_example =
    inject_task-settles mesh (env throws_once) "bake" (away throws_once) refl

abbrev events : List PhaseEvent
events =
    record {
      cycle_id = "x1";
      task_hash = "t1";
      phase = dispatch_to_architect;
      previous = some preparing_context;
      timestamp = 7;
      routed_agent = some "shaev";
      note = none;
    }
    ∷ []
