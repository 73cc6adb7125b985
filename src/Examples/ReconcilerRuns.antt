-- ===== src/Examples/ReconcilerRuns.antt =====
-- src/services/Reconciler.ts: a claim that stalls, and one that was released long ago.
use kovael.Common.{ℕ, ◌≡◌, none, some, List, [], ◌∷◌}
use kovael.Table.{get}
use kovael.Claims.{Call, ClaimRecord, try_claims, marks_running, releases, empty, run, released}
use kovael.Claims.Keyed.{IsKeyed, run-IsKeyed, empty-IsKeyed}
use kovael.Reconciler.{Reconciler, create, default_config, sweep}
use kovael.Reconciler.Sweep.{sweep-reconciled, reconciled?}

abbrev calls : List (ℕ × Call)
calls =
    (10, try_claims "t1" "c1" none)
    ∷ (11, marks_running "t1" "c1")
    ∷ (12, try_claims "t2" "c2" none)
    ∷ (13, releases "t2" "done")
    ∷ []

abbrev watched : Reconciler
watched = create (run empty calls) default_config

watched-IsKeyed : IsKeyed watched.claims
watched-IsKeyed = run-IsKeyed calls empty empty-IsKeyed

sweep-reconciled_example :
    get "t1" (sweep watched 60_020).claims.ledger
    ≡ reconciled? default_config 60_020 (get "t1" watched.claims.ledger)
sweep-reconciled_example = sweep-reconciled watched 60_020 "t1" watched-IsKeyed

abbrev done_record : ClaimRecord
done_record = record {
  task_hash = "t2";
  state = released;
  attempt = 1;
  first_seen = 12;
  updated_at = 13;
  cycle_id = some "c2";
  retry_after = none;
}
