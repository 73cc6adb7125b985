-- ===== src/Examples/RetryRuns.antt =====
-- src/services/RetryQueue.ts: a task that fails, waits and is dispatched again.
use kovael.Common.{ℕ, ◌≡◌, refl, false, none, some, List, [], ◌∷◌}
use kovael.Table.{get, set}
use kovael.Claims.{Call, try_claims, marks_running, empty, run, step}
use kovael.Retries.{Queue, Pending, Dispatcher, default_config, enqueue_failure, sweep}
use kovael.Retries.Failures.{IsHandled, enqueue_failure-IsHandled}
use kovael.Retries.Backlog.{sweep-waits, waits}

abbrev calls : List (ℕ × Call)
calls = (10, try_claims "t1" "c1" none) ∷ (11, marks_running "t1" "c1") ∷ []

-- A dispatcher that claims the task again at once.
idle_dispatcher : Dispatcher
unfolding step
idle_dispatcher m goal = step m (3000, try_claims "t1" "c2" none)

abbrev queue : Queue
queue = record {
  cfg = default_config;
  claims = run empty calls;
  pending = [];
  timer = false;
  dispatcher = some idle_dispatcher;
  emitted = [];
}

enqueue_failure-IsHandled_example :
    IsHandled queue "t1" "bake" "timeout" 20
      (enqueue_failure queue "t1" "bake" "timeout" 20).0
      (enqueue_failure queue "t1" "bake" "timeout" 20).1
enqueue_failure-IsHandled_example = enqueue_failure-IsHandled queue "t1" "bake" "timeout" 20

abbrev waiting : Pending
waiting = record {
  goal = "bake";
  dispatch = record {
    task_hash = "t1";
    attempt = 2;
    backoff_ms = 2000;
    scheduled_for = 2020;
    reason = "timeout";
  };
}

abbrev failed : Queue
failed = (enqueue_failure queue "t1" "bake" "timeout" 20).0

sweep-waits_example :
    get "t1" (sweep failed 2020).pending
    ≡ waits 2020 (get "t1" failed.claims.ledger) (get "t1" failed.pending)
unfolding enqueue_failure run step get set
sweep-waits_example =
    sweep-waits idle_dispatcher failed 2020 "t1" refl
      (record { unique = (refl, tt); own = (refl, tt) })
