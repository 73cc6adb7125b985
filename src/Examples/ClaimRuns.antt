-- ===== src/Examples/ClaimRuns.antt =====
-- src/protocols/TaskClaimMachine.ts: a task that is claimed, fails, is retried and released.
use kovael.Common.{ℕ, ◌≡◌, refl, false, none, some, List, [], ◌∷◌, ◌⊎◌}
use kovael.Table.{get, set}
use kovael.Claims.{
  Call, try_claims, marks_running, marks_retry, releases, empty, step, run, released, claimed,
  try_claim, ClaimRecord, target,
}
use kovael.Claims.Laws.{get-step, task_after}
use kovael.Claims.Exclusion.{try_claim_once}
use kovael.Claims.Diagram.{step-Follows, Follows}
use kovael.Claims.Invariant.{run-IsTask, IsTask}

-- One claim, one failure, and a second claim at time 30.
abbrev retried : List (ℕ × Call)
retried =
    (10, try_claims "t1" "c1" none)
    ∷ (11, marks_running "t1" "c1")
    ∷ (20, marks_retry "t1" 5 (some "failed"))
    ∷ (30, try_claims "t1" "c2" none)
    ∷ []

abbrev retried_record : ClaimRecord
retried_record = record {
  task_hash = "t1";
  state = claimed;
  attempt = 2;
  first_seen = 10;
  updated_at = 30;
  cycle_id = some "c2";
  retry_after = some 25;
}

retried_state : get "t1" (run empty retried).ledger ≡ some retried_record
unfolding run step get set
retried_state = refl

try_claim_once_example :
    (try_claim
      (run (try_claim empty "t1" "c1" none 1).0 ((2, marks_running "t1" "c1") ∷ []))
      "t1"
      "c2"
      none
      3).1
    ≡ false
try_claim_once_example =
    try_claim_once empty "t1" "c1" "c2" none none 1 3 ((2, marks_running "t1" "c1") ∷ [])
      (unfold try_claim get set in refl) (refl, tt)

get-step_example :
    get "t1" (step (run empty retried) (31, marks_running "t1" "c2")).ledger
    ≡ task_after (marks_running "t1" "c2") 31 (get "t1" (run empty retried).ledger)
unfolding get target
get-step_example = get-step (run empty retried) "t1" 31 (marks_running "t1" "c2")

abbrev released_record : ClaimRecord
released_record = record retried_record { state = released; updated_at = 40 }

step-Follows_example :
    (released_record ≡ retried_record) ⊎ Follows 40 retried_record released_record
unfolding run step get set
step-Follows_example =
    step-Follows (run empty retried) 40 (releases "t1" "done") "t1" retried_record released_record
      refl refl

run-IsTask_example : IsTask "t1" retried_record
run-IsTask_example = run-IsTask retried "t1" retried_record retried_state
