-- ===== src/Mesh/Inject.antt =====
-- src/MeshOrchestrator.ts: no way through `injectTask` leaves a claim behind.
use kovael.Common.{
  ℕ, ◌≡◌, refl, ◌∙◌, ap, inl, inr, String, Bool, true, false, Option, none, some, arith,
  str_eq_self, Bool-cases,
}
use kovael.Table.{get}
use kovael.Claims.{
  running, ClaimRecord, Machine, register, try_claim, mark_running, registers, try_claims,
  marks_running, step, target, moved, same, new_record,
}
use kovael.Claims.Laws.{get-step, task_after}
use kovael.Claims.Exclusion.{try_claim-is_open, is_open}
use kovael.Bridge.{Receipt}
use kovael.Mesh.Settling.{IsElsewhere, state_of, IsFinished, Free, Runs, after_claim-IsFinished}
use kovael.Mesh.{
  Mesh, Env, Result, err, in_flight, with_claims, claim_task, start_task, inject_task,
  inject_reason,
}

abbrev registered : Env → String → Mesh → Machine
registered e goal m =
    (register m.queue.claims e.task_hash (some (inject_reason goal)) (e.clock 0)).0

register-is_open :
    (e : Env) (goal : String) (m : Mesh)
    → is_open (get e.task_hash (registered e goal m).ledger)
      ≡ is_open (get e.task_hash m.queue.claims.ledger)
unfolding step target new_record
register-is_open e goal m = ground (
  arith,
  str_eq_self e.task_hash,
  get-step m.queue.claims e.task_hash (e.clock 0)
      (registers e.task_hash (some (inject_reason goal))),
)

claim_task-open :
    (e : Env) (goal : String) (m : Mesh)
    → (claim_task m e goal).1 ≡ is_open (get e.task_hash m.queue.claims.ledger)
unfolding claim_task
claim_task-open e goal m =
    try_claim-is_open (registered e goal m) e.task_hash e.cycle_id (some "orchestrator_inject")
      (e.clock 0)
    ∙ register-is_open e goal m

-- The claim, run: three calls on the ledger, as a machine of one task has them.
own_calls :
    (c : Machine) (h cycle_id : String) (why why' : Option String) (now : ℕ)
    → get h
        (mark_running
          (try_claim (register c h why now).0 h cycle_id why' now).0
          h
          cycle_id
          now).0.ledger
      ≡ task_after (marks_running h cycle_id) now (
          task_after
            (try_claims h cycle_id why')
            now
            (task_after (registers h why) now (get h c.ledger)))
unfolding step target
own_calls c h cycle_id why why' now =
    let c1 = (register c h why now).0 in
    let c2 = (try_claim c1 h cycle_id why' now).0 in
    rw
      (
        get-step c2 h now (marks_running h cycle_id),
        get-step c1 h now (try_claims h cycle_id why'),
        get-step c h now (registers h why),
        str_eq_self h,
      )
      refl

claimed-running :
    (h cycle_id : String) (why why' : Option String) (now : ℕ) (o : Option ClaimRecord)
    → is_open o ≡ true
    → state_of (
        task_after
          (marks_running h cycle_id)
          now
          (task_after (try_claims h cycle_id why') now (task_after (registers h why) now o)))
      ≡ some running
unfolding moved same new_record
claimed-running h cycle_id why why' now none e = ground arith
claimed-running h cycle_id why why' now (some r) e = ground arith

start_task-claims :
    (m : Mesh) (e : Env)
    → (start_task m e).queue.claims
      ≡ (mark_running m.queue.claims e.task_hash e.cycle_id (e.clock 0)).0
unfolding start_task with_claims
start_task-claims m e = ground arith

start_task-Free :
    (m : Mesh) (e : Env) → get e.cycle_id m.workspaces ≡ none → Free e (start_task m e)
unfolding start_task with_claims
start_task-Free m e v w = ground (arith, v, w)

start_task-Runs :
    (e : Env) (goal : String) (m : Mesh)
    → is_open (get e.task_hash m.queue.claims.ledger) ≡ true
    → get e.cycle_id m.workspaces ≡ none
    → Runs e goal (start_task (claim_task m e goal).0 e)
unfolding claim_task with_claims
start_task-Runs e goal m o w =
    let m' = (claim_task m e goal).0 in
    let why : Option String = some (inject_reason goal) in
    let why' : Option String = some "orchestrator_inject" in
    (
      ap (λ (c : Machine). state_of (get e.task_hash c.ledger)) (start_task-claims m' e)
          ∙ ap state_of (own_calls m.queue.claims e.task_hash e.cycle_id why why' (e.clock 0))
          ∙ claimed-running e.task_hash e.cycle_id why why' (e.clock 0)
              (get e.task_hash m.queue.claims.ledger) o,
      start_task-Free m' e w,
    )

-- A call on an open task.
abbrev pub Answers : Bool → Env → String → Mesh → Mesh × Result Receipt → Type 0
Answers true e goal m (m', x) = IsFinished e goal m'
Answers false e goal m (m', x) =
    (x ≡ err in_flight)
    × (get e.task_hash m'.queue.claims.ledger ≡ get e.task_hash m.queue.claims.ledger)
    × (m'.workspaces ≡ m.workspaces)

refused-ledger :
    (c : Machine) (h cycle_id : String) (why why' : Option String) (now : ℕ)
    → is_open (get h c.ledger) ≡ false
    → get h (try_claim (register c h why now).0 h cycle_id why' now).0.ledger ≡ get h c.ledger
unfolding step target
refused-ledger c h cycle_id why why' now e =
    let c1 = (register c h why now).0 in
    ground (
      arith,
      str_eq_self h,
      get-step c1 h now (try_claims h cycle_id why'),
      get-step c h now (registers h why),
    )

-- If nothing else touches the task and the workspace of the cycle meanwhile, a call of `injectTask`
-- on a task that is open leaves the task released, or queued for a retry with its goal pending,
-- and the workspace not held: whether a hook aborts, the loop throws, or the receipt is verified
-- or failed. On any other task the call is refused, and changes neither its claim nor a workspace.
pub inject_task-settles :
    (m : Mesh) (e : Env) (goal : String)
    → IsElsewhere e
    → get e.cycle_id m.workspaces ≡ none
    → Answers (is_open (get e.task_hash m.queue.claims.ledger)) e goal m (inject_task m e goal)
unfolding inject_task
inject_task-settles m e goal away w =
    elim (Bool-cases (is_open (get e.task_hash m.queue.claims.ledger))) [
      | inl o ↦
          rw (o, claim_task-open e goal m ∙ o, inject_task)
            (after_claim-IsFinished e goal away (start_task (claim_task m e goal).0 e)
              (start_task-Runs e goal m o w))
      | inr o ↦
          rw (o, claim_task-open e goal m ∙ o, inject_task)
            (
              refl,
              unfold claim_task with_claims in
                  refused-ledger m.queue.claims e.task_hash e.cycle_id (some (inject_reason goal))
                    (some "orchestrator_inject") (e.clock 0) o,
              unfold claim_task with_claims in refl,
            )
    ]
