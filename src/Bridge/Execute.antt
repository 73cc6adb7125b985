-- ===== src/Bridge/Execute.antt =====
-- src/MevBridge.ts: `execute`, one cycle from its task to its receipt or its exception.
use kovael.Common.{
  ℕ, ◌+◌, ◌-◌, String, Bool, true, false, ◌&&◌, Option, none, some, List, [], ◌∷◌, ◌++◌, map, ◌==◌,
  str_eq, or_default, if◌then◌else◌, ◌+++◌,
}
use kovael.Triad.{
  Phase, dispatch_to_architect, architect_streaming, dispatch_to_operator, operator_executing,
  dispatch_to_verifier, verifier_auditing, issuing_receipt, succeeded, failed, Cycle, start,
  transition, is_terminal, trail,
}
use kovael.Bridge.{
  Bridge, Message, Receipt, ReceiptStatus, verified, failed_, Routing, estimate_tokens,
  shard_context, route_architect, note_dispatch, is_system,
}

-- Where the source may throw: compiling the persona's prompt and starting the span, before the `try`;
-- a listener of `phase_change`, after the machine is in the phase; the tracer, the log and the random
-- source in the three stages and in the receipt; the database; a listener of `cycle_complete` or the
-- end of the span, after the receipt is stored; and the end of the span or the log in the `catch`. A
-- stage that is not run throws nothing.
pub data Stage : Type 0 where
  in_prompt in_span in_architect in_operator in_verifier in_receipt in_store in_announce : Stage
  in_catch : Stage
  heard : Phase → Stage

pub record Outside : Type 0 where
  pub task_hash : String
  pub cycle_id : String
  pub receipt_id : String
  pub blueprint_json : String
  pub result_json : String
  pub details_json : String
  pub evidence_json : String
  pub clock : ℕ → ℕ
  pub throws : Stage → Option String

pub record OperatorResult : Type 0 where
  pub status : String
  pub exit_code : ℕ

unfoldable pub operator : OperatorResult
operator = record { status = "success"; exit_code = 0 }

unfoldable pub verifier : OperatorResult → Bool
verifier r = r.exit_code == 0 && str_eq r.status "success"

-- `contextForArchitect.map(m => m.content).join('\n')`
unfoldable pub join_lines : List Message → String
unfolding ◌+++◌
join_lines [] = ""
join_lines (m ∷ []) = m.content
join_lines (m ∷ n ∷ ms) = m.content +++ "\n" +++ join_lines (n ∷ ms)

-- The persona's prompt in place of each system message.
unfoldable pub with_persona : Option (String → String) → String → List Message → List Message
unfolding is_system
with_persona none agent ms = ms
with_persona (some compile) agent ms =
    map (λ m. if is_system m then record m { content = compile agent } else m) ms

-- What an exception leaves behind: the cycle as it is and the message.
pub data Attempt (A : Type 0) : Type 0 where
  done : Cycle → A → Attempt A
  thrown : Cycle → String → Attempt A

infixl 5 ◌>>=◌
abbrev pub ◌>>=◌ : {A B : Type 0} → Attempt A → (Cycle → A → Attempt B) → Attempt B
done c a >>= f = f c a
thrown c e >>= f = thrown c e

unfoldable pub stage : Outside → Stage → Cycle → Attempt (Unit {0})
stage out s c = elim (out.throws s) [ none ↦ done c tt | some e ↦ thrown c e ]

-- `machine.transition(next, meta)`, with the listeners that it calls.
unfoldable pub advance :
    Outside → Cycle → Phase → Option String → Option String → ℕ → Attempt (Unit {0})
unfolding stage
advance out c next agent note now =
    elim (transition c (record { next = next; now = now; routed_agent = agent; note = note })) [
      | none ↦ thrown c "[TriadStateMachine] Illegal transition"
      | some (c', e) ↦ stage out (heard next) c'
    ]

unfoldable pub status_of : Bool → ReceiptStatus
status_of true = verified
status_of false = failed_

unfoldable pub last_phase : Bool → Phase
last_phase true = succeeded
last_phase false = failed

unfoldable pub receipt_of :
    Outside → Bridge → Routing → String → List Message → Bool → Cycle → Receipt
unfolding estimate_tokens join_lines status_of ◌+++◌ trail
receipt_of out b route task ctx success c =
    let input = estimate_tokens (task +++ join_lines ctx) in
    let output = estimate_tokens (out.blueprint_json +++ out.result_json +++ out.details_json) in
    record {
      id = out.receipt_id;
      cycle_id = out.cycle_id;
      timestamp = out.clock 8;
      architect_id = route.agent;
      operator_id = "operator-v1-nyx";
      verifier_id = "verifier-v1-nyx";
      task_hash = out.task_hash;
      status = status_of success;
      evidence = out.evidence_json;
      routing = route;
      vram_free_mb = b.vram_free_mb;
      phase_trail = trail c;
      tokens = record {
        input = input;
        output = output;
        total = input + output;
        runtime_ms = out.clock 8 - out.clock 0;
      };
    }

-- The body of the `try`, from its end: the receipt, whose trail is read again after the last
-- transition.
unfoldable pub conclude :
    Outside → Bridge → Routing → String → List Message → Cycle → Attempt Receipt
unfolding advance stage verifier operator receipt_of last_phase
conclude out b route task ctx c = advance out c issuing_receipt none none (out.clock 7) >>= λ c1 _.
    stage out in_receipt c1 >>= λ c2 _.
    advance out c2 (last_phase (verifier operator)) (some route.agent) none (out.clock 9)
    >>= λ c3 _. stage out in_store c3 >>= λ c4 _.
        done c4 (receipt_of out b route task ctx (verifier operator) c4)

unfoldable pub verify : Outside → Bridge → Routing → String → List Message → Cycle → Attempt Receipt
unfolding advance stage conclude
verify out b route task ctx c =
    advance out c dispatch_to_verifier none none (out.clock 5) >>= λ c1 _.
    advance out c1 verifier_auditing none none (out.clock 6) >>= λ c2 _.
    stage out in_verifier c2 >>= λ c3 _. conclude out b route task ctx c3

unfoldable pub operate :
    Outside → Bridge → Routing → String → List Message → Cycle → Attempt Receipt
unfolding advance stage verify
operate out b route task ctx c =
    advance out c dispatch_to_operator none none (out.clock 3) >>= λ c1 _.
    advance out c1 operator_executing none none (out.clock 4) >>= λ c2 _.
    stage out in_operator c2 >>= λ c3 _. verify out b route task ctx c3

unfoldable pub attempt :
    Outside → Bridge → Routing → String → List Message → Cycle → Attempt Receipt
unfolding advance stage operate
attempt out b route task ctx c =
    advance out c dispatch_to_architect (some route.agent) (some route.rationale) (out.clock 1)
    >>= λ c1 _. advance out c1 architect_streaming none none (out.clock 2) >>= λ c2 _.
        stage out in_architect c2 >>= λ c3 _. operate out b route task ctx c3

-- The transition in the `catch`: an illegal one and a listener that throws are swallowed.
unfoldable pub fail_cycle : Outside → Routing → Cycle → String → Cycle
unfolding advance is_terminal
fail_cycle out route c e =
    if is_terminal c
    then c
    else elim (advance out c failed (some route.agent) (some e) (out.clock 10)) [
      | done c' _ ↦ c'
      | thrown c' _ ↦ c'
    ]

-- `announced` is the receipt that the listeners of `cycle_complete` get.
pub record Executed : Type 0 where
  pub bridge : Bridge
  pub cycle : Cycle
  pub announced : Option Receipt
  pub outcome : Option Receipt
  pub error : Option String

-- The `catch`: what it throws itself takes the place of the exception.
unfoldable pub caught : Outside → Bridge → Routing → Cycle → String → Option Receipt → Executed
unfolding fail_cycle
caught out b route c e told = record {
  bridge = b;
  cycle = fail_cycle out route c e;
  announced = told;
  outcome = none;
  error = some (or_default (out.throws in_catch) e);
}

unfoldable pub settle : Outside → Bridge → Routing → Attempt Receipt → Executed
unfolding caught
settle out b route (done c r) =
    let b' = record b { receipts = b.receipts ++ r ∷ [] } in
    elim (out.throws in_announce) [
      | none ↦ record { bridge = b'; cycle = c; announced = some r; outcome = some r; error = none }
      | some e ↦ caught out b' route c e (some r)
    ]
settle out b route (thrown c e) = caught out b route c e none

-- An exception before the `try` goes to the caller as it is.
unfoldable pub not_begun : Bridge → Cycle → String → Executed
not_begun b c e = record { bridge = b; cycle = c; announced = none; outcome = none; error = some e }

-- The rejected promise of the source is an outcome without a receipt, with the message.
unfoldable pub execute : Bridge → Outside → String → List Message → Executed
unfolding settle attempt with_persona stage not_begun
execute b out task context =
    let (b1, route) = route_architect b (out.clock 0) in
    let b2 = note_dispatch b1 route.agent (out.clock 0) in
    let ctx = with_persona b2.persona route.agent (shard_context context b2.keep_recent_turns) in
    let c = start out.cycle_id out.task_hash (out.clock 0) in
    elim (stage out in_prompt c >>= λ c' _. stage out in_span c') [
      | thrown c' e ↦ not_begun b2 c' e
      | done c' _ ↦ settle out b2 route (attempt out b2 route task ctx c')
    ]
