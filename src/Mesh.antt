-- ===== src/Mesh.antt =====
-- src/MeshOrchestrator.ts: `injectTask`, which takes a task through its claim, its workspace, its
-- hooks, the triad loop and, where that fails, the retry queue.
--
-- At each `await` other work of the orchestrator may run: `others` is any function on the state
-- for each of these places. What a call takes from outside is `Env`: the hash of the goal, the
-- identifier of the cycle, the clock at each place, the path of the workspace, or none where
-- `acquire` throws, and what the triad loop takes. The learning matrix, the self healer, the log
-- and the broadcasts are told of a cycle and do not act on this state.
pub mod Settling
pub mod Inject
pub mod Counters
use kovael.Common.{
  ℕ, suc, ◌+◌, String, Bool, true, false, not, ◌&&◌, ◌||◌, Option, none, some, List, [], ◌∷◌, ltb,
  length, clip, if◌then◌else◌, ◌+++◌, is_some, or_default, reverse,
}
use kovael.Table.{Table, get, set, delete, size}
use kovael.Claims.{Machine, register, try_claim, mark_running, release, claimed, running, stats}
use kovael.Retries.{Queue, enqueue_failure}
use kovael.Governor.{Governor, note_activity}
use kovael.Hooks.{
  Runner, HookEvent, HookResult, after_create, before_run, after_run, before_remove, run,
  should_abort,
}
use kovael.Triad.{PhaseEvent}
use kovael.Bridge.{Bridge, Message, Receipt, ReceiptStatus, verified, failed_, TokenUsage}
use kovael.Bridge.Execute.{Outside, Executed, execute}

pub record HookContext : Type 0 where
  pub cycle_id : String
  pub task_hash : String
  pub workspace_path : Option String
  pub goal : String
  pub receipt : Option (String × ReceiptStatus)

pub record TokenTotals : Type 0 where
  pub input : ℕ
  pub output : ℕ
  pub total : ℕ
  pub runtime_ms : ℕ
  pub cycles : ℕ

-- The retry queue holds the ledger of claims that the two share.
pub record Mesh : Type 0 where
  pub queue : Queue
  pub governor : Governor
  pub workspaces : Table String
  pub hooks : Runner HookContext
  pub bridge : Bridge
  pub active_cycles : Table PhaseEvent
  pub token_totals : TokenTotals
  pub receipts_issued : ℕ

pub record Env : Type 0 where
  pub task_hash : String
  pub cycle_id : String
  pub clock : ℕ → ℕ
  pub workspace : Option String
  pub out : Outside
  pub others : ℕ → Mesh → Mesh

pub data InjectError : Type 0 where
  in_flight after_create_aborted before_run_aborted : InjectError
  execute_threw : String → InjectError

pub data Result (A : Type 0) : Type 0 where
  ok : A → Result A
  err : InjectError → Result A

unfoldable pub with_claims : Mesh → Machine → Mesh
with_claims m c = record m { queue = record m.queue { claims = c } }

-- `phase_change`: the newest event of each cycle, the oldest cycle evicted past the limit.
unfoldable pub drop_first : Table PhaseEvent → Table PhaseEvent
drop_first [] = []
drop_first ((k, e) ∷ t) = delete k ((k, e) ∷ t)

abbrev pub max_active_cycles : ℕ
max_active_cycles = 512

unfoldable pub note_phase : Table PhaseEvent → PhaseEvent → Table PhaseEvent
unfolding drop_first
note_phase t e =
    let t' = set e.cycle_id e t in if ltb max_active_cycles (size t') then drop_first t' else t'

unfoldable pub note_phases : Table PhaseEvent → List PhaseEvent → Table PhaseEvent
unfolding note_phase
note_phases t [] = t
note_phases t (e ∷ es) = note_phases (note_phase t e) es

-- `cycle_complete`
unfoldable pub complete_cycle : Mesh → Receipt → Mesh
complete_cycle m r = record m {
  receipts_issued = m.receipts_issued + 1;
  token_totals = record {
    input = m.token_totals.input + r.tokens.input;
    output = m.token_totals.output + r.tokens.output;
    total = m.token_totals.total + r.tokens.total;
    runtime_ms = m.token_totals.runtime_ms + r.tokens.runtime_ms;
    cycles = m.token_totals.cycles + 1;
  };
}

-- `hasInteractiveWork`: clients on the socket, open topics, claimed or running tasks.
unfoldable pub has_interactive_work : Mesh → ℕ → ℕ → Bool
unfolding stats
has_interactive_work m clients topics =
    ltb 0 clients
    || ltb 0 topics
    || ltb 0 (stats m.queue.claims claimed)
    || ltb 0 (stats m.queue.claims running)

unfoldable pub inject_reason : String → String
unfolding ◌+++◌
inject_reason goal = "inject:" +++ clip 60 goal

-- Up to the claim, and its answer.
unfoldable pub claim_task : Mesh → Env → String → Mesh × Bool
unfolding with_claims inject_reason
claim_task m e goal =
    let now = e.clock 0 in
    let g = note_activity m.governor now "task:inject" in
    let c = (register m.queue.claims e.task_hash (some (inject_reason goal)) now).0 in
    let (c', claimed_) = try_claim c e.task_hash e.cycle_id (some "orchestrator_inject") now in
    (record (with_claims m c') { governor = g }, claimed_)

-- The claim runs, and the workspace is acquired if that does not throw.
unfoldable pub start_task : Mesh → Env → Mesh
unfolding with_claims
start_task m e =
    let m' = with_claims m (mark_running m.queue.claims e.task_hash e.cycle_id (e.clock 0)).0 in
    elim e.workspace [
      | none ↦ m'
      | some path ↦ record m' { workspaces = set e.cycle_id path m'.workspaces }
    ]

unfoldable pub context_of : Env → String → Option (String × ReceiptStatus) → HookContext
context_of e goal receipt = record {
  cycle_id = e.cycle_id;
  task_hash = e.task_hash;
  workspace_path = e.workspace;
  goal = goal;
  receipt = receipt;
}

-- `await this.hooks.run(event, ctx)`, with what others do meanwhile.
unfoldable pub await_hooks :
    Mesh → Env → String → HookEvent → Option (String × ReceiptStatus) → ℕ → Mesh × Bool
unfolding context_of
await_hooks m e goal event receipt place =
    let (h, rs) = run m.hooks event (context_of e goal receipt) in
    (e.others place (record m { hooks = h }), should_abort event rs)

-- `if (workspacePath) this.workspaces.release(cycleId)`
unfoldable pub leave : Mesh → Env → Mesh
leave m e = elim e.workspace [
  | none ↦ m
  | some _ ↦ record m { workspaces = delete e.cycle_id m.workspaces }
]

unfoldable pub release_claim : Mesh → Env → String → ℕ → Mesh
unfolding with_claims
release_claim m e reason place =
    with_claims m (release m.queue.claims e.task_hash reason (e.clock place)).0

unfoldable pub fail_task : Mesh → Env → String → String → ℕ → Mesh
fail_task m e goal reason place = record m {
  queue = (enqueue_failure m.queue e.task_hash goal reason (e.clock place)).0;
}

abbrev pub mission : String → List Message
mission goal =
    record { role = "system"; content = "You are Nyx, the Sovereign Intelligence." }
    ∷ record { role = "user"; content = "Execute goal: " +++ goal }
    ∷ []

-- `await this.mevBridge.execute(…)` with its events, and what others do meanwhile. This listener of
-- `cycle_complete` counts before any other throws.
unfoldable pub await_execute : Mesh → Env → String → Mesh × Executed
unfolding note_phases complete_cycle ◌+++◌
await_execute m e goal =
    let x = execute m.bridge e.out goal (mission goal) in
    let m' = record m {
      bridge = x.bridge;
      active_cycles = note_phases m.active_cycles (reverse x.cycle.emitted);
    } in
    (e.others 3 (elim x.announced [ none ↦ m' | some r ↦ complete_cycle m' r ]), x)

unfoldable pub settle_claim : Mesh → Env → String → ReceiptStatus → String → Mesh
unfolding release_claim fail_task ◌+++◌
settle_claim m e goal verified id = release_claim m e "cycle_succeeded" 4
settle_claim m e goal failed_ id = fail_task m e goal ("cycle_failed:" +++ id) 4

-- What follows on a receipt: the claim is released or the failure enqueued, and the workspace
-- left.
unfoldable pub after_receipt : Mesh → Env → String → Receipt → Mesh
unfolding await_hooks leave settle_claim
after_receipt m e goal r =
    let m1 = (await_hooks m e goal after_run (some (r.id, r.status)) 4).0 in
    let m2 = settle_claim m1 e goal r.status r.id in
    if is_some e.workspace then leave (await_hooks m2 e goal before_remove none 5).0 e else m2

unfoldable pub run_cycle : Mesh → Env → String → Mesh × Result Receipt
unfolding await_execute after_receipt leave fail_task ◌+++◌
run_cycle m e goal =
    let (m', x) = await_execute m e goal in
    elim x.outcome [
      | some r ↦ (after_receipt m' e goal r, ok r)
      | none ↦
          let message = or_default x.error "" in
          (
            leave (fail_task m' e goal ("execute_threw:" +++ message) 3) e,
            err (execute_threw message),
          )
    ]

unfoldable pub before_cycle : Mesh → Env → String → Mesh × Result Receipt
unfolding await_hooks leave release_claim run_cycle
before_cycle m e goal =
    let (m', abort) = await_hooks m e goal before_run none 2 in
    if abort
    then (release_claim (leave m' e) e "hook_before_run_aborted" 2, err before_run_aborted)
    else run_cycle m' e goal

unfoldable pub after_claim : Mesh → Env → String → Mesh × Result Receipt
unfolding await_hooks leave release_claim before_cycle
after_claim m e goal =
    let (m', abort) = await_hooks m e goal after_create none 1 in
    if abort
    then (release_claim (leave m' e) e "hook_after_create_aborted" 1, err after_create_aborted)
    else before_cycle m' e goal

unfoldable pub inject_task : Mesh → Env → String → Mesh × Result Receipt
unfolding claim_task start_task after_claim
inject_task m e goal =
    let (m', claimed_) = claim_task m e goal in
    if claimed_ then after_claim (start_task m' e) e goal else (m', err in_flight)
