-- ===== src/Mesh/Settling.antt =====
-- src/MeshOrchestrator.ts: the steps of `injectTask` from a claim that runs to its end.
use kovael.Common.{
  ℕ, ◌≡◌, refl, sym, ◌∙◌, ap, ◌⊎◌, inl, inr, String, false, Option, none, some, arith, str_eq_self,
  Option-cases, Bool-cases, is_some, or_default, ◌+++◌, subst,
}
use kovael.Table.{get}
use kovael.Table.Laws.{get-delete}
use kovael.Claims.{ClaimState, running, retry_queued, released, ClaimRecord, releases, moved, same}
use kovael.Claims.Laws.{get-release, task_after}
use kovael.Retries.{Pending, Queue}
use kovael.Retries.Failures.{enqueue_failure-IsHandled, record_after, pending_after}
use kovael.Hooks.{HookEvent, after_create, before_run, after_run, before_remove}
use kovael.Bridge.{Receipt, ReceiptStatus, verified, failed_}
use kovael.Bridge.Execute.{execute}
use kovael.Mesh.{
  Mesh, Env, with_claims, complete_cycle, await_hooks, leave, release_claim, fail_task, mission,
  await_execute, settle_claim, after_receipt, run_cycle, before_cycle, after_claim,
}

-- What the rest of the orchestrator does at the places where a call waits leaves the call's task
-- and workspace alone. It may do anything to other tasks.
unfoldable pub IsElsewhere : Env → Type 0
IsElsewhere e =
    (i : ℕ) (m : Mesh)
    → (get e.task_hash (e.others i m).queue.claims.ledger ≡ get e.task_hash m.queue.claims.ledger)
      × (get e.task_hash (e.others i m).queue.pending ≡ get e.task_hash m.queue.pending)
      × (get e.cycle_id (e.others i m).workspaces ≡ get e.cycle_id m.workspaces)

abbrev pub state_of : Option ClaimRecord → Option ClaimState
state_of none = none
state_of (some r) = some r.state

abbrev pub goal_of : Option Pending → Option String
goal_of none = none
goal_of (some p) = some p.goal

abbrev pub task_state : Env → Mesh → Option ClaimState
task_state e m = state_of (get e.task_hash m.queue.claims.ledger)

-- A task is released, or waits in the queue with its goal.
abbrev pub Settled : Env → String → Queue → Type 0
Settled e goal q =
    (state_of (get e.task_hash q.claims.ledger) ≡ some released)
    ⊎ ((state_of (get e.task_hash q.claims.ledger) ≡ some retry_queued)
        × (goal_of (get e.task_hash q.pending) ≡ some goal))

-- The task is settled and the workspace of the cycle is not held.
abbrev pub IsFinished : Env → String → Mesh → Type 0
IsFinished e goal m = Settled e goal m.queue × (get e.cycle_id m.workspaces ≡ none)

-- The workspace of the cycle is held only if it was acquired.
abbrev pub Free : Env → Mesh → Type 0
Free e m = e.workspace ≡ none → get e.cycle_id m.workspaces ≡ none

release-state :
    (h reason : String) (now : ℕ) (o : Option ClaimRecord)
    → state_of o ≡ some running
    → state_of (task_after (releases h reason) now o) ≡ some released
unfolding moved
release-state h reason now none e = cc
release-state h reason now (some r) e = ground arith

failure-settled :
    (q : Queue) (h goal reason : String) (now : ℕ) (o : Option ClaimRecord) (p : Option Pending)
    → state_of o ≡ some running
    → (state_of (record_after q.cfg now o) ≡ some released)
      ⊎ ((state_of (record_after q.cfg now o) ≡ some retry_queued)
          × (goal_of (pending_after q.cfg h goal reason now o p) ≡ some goal))
unfolding moved same
failure-settled q h goal reason now none p e = cc
failure-settled q h goal reason now (some r) p e = ground arith

absent : (o : Option String) → is_some o ≡ false → o ≡ none
absent none h = refl
absent (some s) h = cc

module _ (e : Env) (goal : String) where
  leave-Free : (m : Mesh) → Free e m → get e.cycle_id (leave m e).workspaces ≡ none
  unfolding leave
  leave-Free m v =
      ground (arith, str_eq_self e.cycle_id, get-delete e.cycle_id e.cycle_id m.workspaces)

  leave-queue : (m : Mesh) → (leave m e).queue ≡ m.queue
  unfolding leave
  leave-queue m = ground arith

  release_claim-Settled :
      (m : Mesh) (reason : String) (i : ℕ)
      → task_state e m ≡ some running
      → Settled e goal (release_claim m e reason i).queue
  unfolding release_claim with_claims
  release_claim-Settled m reason i v = inl (
      rw
        (
          get-release m.queue.claims e.task_hash e.task_hash reason (e.clock i),
          str_eq_self e.task_hash,
        )
        (release-state e.task_hash reason (e.clock i) (get e.task_hash m.queue.claims.ledger) v))

  fail_task-Settled :
      (m : Mesh) (reason : String) (i : ℕ)
      → task_state e m ≡ some running
      → Settled e goal (fail_task m e goal reason i).queue
  unfolding fail_task
  fail_task-Settled m reason i v =
      let w = enqueue_failure-IsHandled m.queue e.task_hash goal reason (e.clock i) in
      let r = w.recorded e.task_hash in
      let p = w.waiting e.task_hash in
      rw (r, p, str_eq_self e.task_hash)
        (failure-settled m.queue e.task_hash goal reason (e.clock i)
          (get e.task_hash m.queue.claims.ledger) (get e.task_hash m.queue.pending) v)

  settle_claim-Settled :
      (m : Mesh) (s : ReceiptStatus) (id : String)
      → task_state e m ≡ some running
      → Settled e goal (settle_claim m e goal s id).queue
  unfolding settle_claim
  settle_claim-Settled m verified id v = release_claim-Settled m "cycle_succeeded" 4 v
  settle_claim-Settled m failed_ id v = fail_task-Settled m (_) 4 v

  settle_claim-workspaces :
      (m : Mesh) (s : ReceiptStatus) (id : String)
      → (settle_claim m e goal s id).workspaces ≡ m.workspaces
  unfolding settle_claim release_claim fail_task with_claims
  settle_claim-workspaces m verified id = refl
  settle_claim-workspaces m failed_ id = refl

  leave-IsFinished : (m : Mesh) → Settled e goal m.queue → Free e m → IsFinished e goal (leave m e)
  leave-IsFinished m s v = (subst (Settled e goal) (sym (leave-queue m)) s, leave-Free m v)

  -- A task on its way: it runs, and its workspace is held only if it was acquired.
  abbrev pub Runs : Mesh → Type 0
  Runs m = (task_state e m ≡ some running) × Free e m

  module _ (away : IsElsewhere e) where
    others-Runs : (i : ℕ) (m : Mesh) → Runs m → Runs (e.others i m)
    unfolding IsElsewhere
    others-Runs i m v = (ap state_of (away i m).0 ∙ v.0, λ w. (away i m).2 ∙ v.1 w)

    others-Settled :
        (i : ℕ) (m : Mesh) → Settled e goal m.queue → Settled e goal (e.others i m).queue
    unfolding IsElsewhere
    others-Settled i m (inl p) = inl (ap state_of (away i m).0 ∙ p)
    others-Settled i m (inr p) = inr (ap state_of (away i m).0 ∙ p.0, ap goal_of (away i m).1 ∙ p.1)

    others-Free : (i : ℕ) (m : Mesh) → Free e m → Free e (e.others i m)
    unfolding IsElsewhere
    others-Free i m v = λ w. (away i m).2 ∙ v w

    hooks-Runs :
        (m : Mesh) (ev : HookEvent) (o : Option (String × ReceiptStatus)) (i : ℕ)
        → Runs m
        → Runs (await_hooks m e goal ev o i).0
    unfolding await_hooks
    hooks-Runs m ev o i v = others-Runs i _ v

    after_receipt-IsFinished :
        (m : Mesh) (r : Receipt) → Runs m → IsFinished e goal (after_receipt m e goal r)
    unfolding after_receipt
    after_receipt-IsFinished m r v =
        let m1 = (await_hooks m e goal after_run (some (r.id, r.status)) 4).0 in
        let v1 = hooks-Runs m after_run (some (r.id, r.status)) 4 v in
        let m2 = settle_claim m1 e goal r.status r.id in
        let s2 = settle_claim-Settled m1 r.status r.id v1.0 in
        let f2 : Free e m2 =
          λ w. ap (get e.cycle_id) (settle_claim-workspaces m1 r.status r.id) ∙ v1.1 w in
        elim (Bool-cases (is_some e.workspace)) [
          | inr w ↦ rw w (s2, f2 (absent e.workspace w))
          | inl w ↦ rw w (
              leave-IsFinished (await_hooks m2 e goal before_remove none 5).0
                (others-Settled 5 _ s2) (others-Free 5 _ f2))
        ]

    execute-Runs : (m : Mesh) → Runs m → Runs (await_execute m e goal).0
    unfolding await_execute complete_cycle
    execute-Runs m v =
        others-Runs 3 _
          (elim (Option-cases (execute m.bridge e.out goal (mission goal)).announced) [
            | inl w ↦ rw w v
            | inr (r, w) ↦ rw w v
          ])

    run_cycle-IsFinished : (m : Mesh) → Runs m → IsFinished e goal (run_cycle m e goal).0
    unfolding run_cycle
    run_cycle-IsFinished m v =
        let m' = (await_execute m e goal).0 in
        let v' = execute-Runs m v in
        elim (Option-cases (await_execute m e goal).1.outcome) [
          | inr (r, w) ↦ rw (w, run_cycle) (after_receipt-IsFinished m' r v')
          | inl w ↦
              let why = "execute_threw:" +++ or_default (await_execute m e goal).1.error "" in
              rw (w, run_cycle)
                (leave-IsFinished (fail_task m' e goal why 3) (fail_task-Settled m' why 3 v'.0)
                  (unfold fail_task in v'.1))
        ]

    aborted-IsFinished :
        (m : Mesh) (reason : String) (i : ℕ)
        → Runs m
        → IsFinished e goal (release_claim (leave m e) e reason i)
    aborted-IsFinished m reason i v = (
      release_claim-Settled (leave m e) reason i (
          subst (λ (q : Queue). state_of (get e.task_hash q.claims.ledger) ≡ some running)
            (sym (leave-queue m)) v.0),
      unfold release_claim with_claims in leave-Free m v.1,
    )

    before_cycle-IsFinished : (m : Mesh) → Runs m → IsFinished e goal (before_cycle m e goal).0
    unfolding before_cycle
    before_cycle-IsFinished m v =
        let m' = (await_hooks m e goal before_run none 2).0 in
        let v' = hooks-Runs m before_run none 2 v in
        elim (Bool-cases (await_hooks m e goal before_run none 2).1) [
          | inl w ↦ rw (w, before_cycle) (aborted-IsFinished m' "hook_before_run_aborted" 2 v')
          | inr w ↦ rw (w, before_cycle) (run_cycle-IsFinished m' v')
        ]

    pub after_claim-IsFinished : (m : Mesh) → Runs m → IsFinished e goal (after_claim m e goal).0
    unfolding after_claim
    after_claim-IsFinished m v =
        let m' = (await_hooks m e goal after_create none 1).0 in
        let v' = hooks-Runs m after_create none 1 v in
        elim (Bool-cases (await_hooks m e goal after_create none 1).1) [
          | inl w ↦ rw (w, after_claim) (aborted-IsFinished m' "hook_after_create_aborted" 1 v')
          | inr w ↦ rw (w, after_claim) (before_cycle-IsFinished m' v')
        ]
