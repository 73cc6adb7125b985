-- ===== src/Retries.antt =====
-- src/services/RetryQueue.ts: failed tasks that wait for their next attempt.
--
-- The factor is a whole number, and `factor^(attempt - 1)` for a task with no attempt yet is
-- written as one: the ledger refuses to queue such a task, so it is not used. The dispatcher is
-- the orchestrator's `injectTask`, bound from outside: what a call of it does to the shared ledger
-- before its first await, here any function. What it does afterwards are further calls, as the
-- report of a failed dispatch is. The timer is a flag.
pub mod Failures
pub mod Backlog
use kovael.Common.{
  ℕ, suc, ◌+◌, ◌-◌, ◌*◌, ◌^◌, String, Bool, true, false, not, ◌&&◌, ◌||◌, Option, none, some, List,
  [], ◌∷◌, leb, ltb, ◌==◌, or_default, map, if◌then◌else◌, ◌+++◌, decimal,
}
use kovael.Table.{Table, get, set, delete, keys, values, size}
use kovael.Claims.{
  ClaimState, retry_queued, ClaimRecord, Machine, same, release, mark_retry_queued, due_for_retry,
}

pub record Config : Type 0 where
  pub max_attempts : ℕ
  pub base_ms : ℕ
  pub factor : ℕ
  pub sweep_interval_ms : ℕ

abbrev pub default_config : Config
default_config = record { max_attempts = 3; base_ms = 2000; factor = 2; sweep_interval_ms = 1000 }

pub record RetryDispatch : Type 0 where
  pub task_hash : String
  pub attempt : ℕ
  pub backoff_ms : ℕ
  pub scheduled_for : ℕ
  pub reason : String

pub record Pending : Type 0 where
  pub goal : String
  pub dispatch : RetryDispatch

-- What the queue emits.
pub data Notice : Type 0 where
  retry_exhausted : String → ℕ → String → Notice
  retry_scheduled retry_dispatching : RetryDispatch → Notice

abbrev pub Dispatcher : Type 0
Dispatcher = Machine → String → Machine

pub record Queue : Type 0 where
  pub cfg : Config
  pub claims : Machine
  pub pending : Table Pending
  pub timer : Bool
  pub dispatcher : Option Dispatcher
  pub emitted : List Notice

pub data Error : Type 0 where
  bad_attempts bad_base bad_factor : Error

pub data Result {ℓ} (A : Type ℓ) : Type ℓ where
  ok : A → Result A
  err : Error → Result A

unfoldable pub create : Machine → Config → Result Queue
create m cfg =
    if ltb cfg.max_attempts 1
    then err bad_attempts
    else if leb cfg.base_ms 0
    then err bad_base
    else if ltb cfg.factor 1
    then err bad_factor
    else ok (record {
      cfg = cfg;
      claims = m;
      pending = [];
      timer = false;
      dispatcher = none;
      emitted = [];
    })

unfoldable pub bind : Queue → Dispatcher → Queue
bind q f = record q { dispatcher = some f }

unfoldable pub start : Queue → Queue
start q = if q.timer then q else record q { timer = true }

unfoldable pub stop : Queue → Queue
stop q = record q { timer = false }

-- The fields of a `Partial<RetryConfig>`, each given or not.
pub record Change : Type 0 where
  pub max_attempts : Option ℕ
  pub base_ms : Option ℕ
  pub factor : Option ℕ
  pub sweep_interval_ms : Option ℕ

-- The new values are not validated. A changed interval restarts a running timer.
unfoldable pub update_config : Queue → Change → Queue
unfolding start stop
update_config q c =
    let q' = record q {
      cfg = record {
        max_attempts = or_default c.max_attempts q.cfg.max_attempts;
        base_ms = or_default c.base_ms q.cfg.base_ms;
        factor = or_default c.factor q.cfg.factor;
        sweep_interval_ms = or_default c.sweep_interval_ms q.cfg.sweep_interval_ms;
      };
    } in
    if q.timer && not (q'.cfg.sweep_interval_ms == q.cfg.sweep_interval_ms)
    then start (stop q')
    else q'

unfoldable pub pending_count : Queue → ℕ
pending_count q = size q.pending

unfoldable pub snapshot : Queue → List RetryDispatch
snapshot q = map (λ p. p.dispatch) (values q.pending)

pub data Outcome : Type 0 where
  retry exhausted : Outcome

unfoldable pub backoff : Config → ClaimRecord → ℕ
backoff cfg r = cfg.base_ms * cfg.factor ^ (r.attempt - 1)

unfoldable pub failed_reason : ClaimRecord → String → String
unfolding decimal ◌+++◌
failed_reason r reason = "attempt_" +++ decimal r.attempt +++ "_failed:" +++ reason

unfoldable pub dispatch_of : Config → ClaimRecord → String → String → ℕ → RetryDispatch
unfolding backoff
dispatch_of cfg r h reason now = record {
  task_hash = h;
  attempt = r.attempt + 1;
  backoff_ms = backoff cfg r;
  scheduled_for = now + backoff cfg r;
  reason = reason;
}

-- No attempt is left.
unfoldable pub exhaust : Queue → String → ClaimRecord → String → ℕ → Queue
unfolding ◌+++◌
exhaust q h r reason now = record q {
  claims = (release q.claims h ("retry_exhausted:" +++ reason) now).0;
  emitted = retry_exhausted h r.attempt reason ∷ q.emitted;
}

-- An attempt is left: the rest of `enqueueFailure`.
unfoldable pub schedule : Queue → String → String → ClaimRecord → String → ℕ → Queue × Outcome
unfolding dispatch_of backoff failed_reason
schedule q h goal r reason now =
    let (m, queued) =
      mark_retry_queued q.claims h (backoff q.cfg r) (some (failed_reason r reason)) now in
    let d = dispatch_of q.cfg r h reason now in
    if not queued
    then (
      record q {
        claims = m;
        emitted = retry_exhausted h r.attempt "claim_already_released" ∷ q.emitted;
      },
      exhausted,
    )
    else (
      record q {
        claims = m;
        pending = set h (record { goal = goal; dispatch = d }) q.pending;
        emitted = retry_scheduled d ∷ q.emitted;
      },
      retry,
    )

unfoldable pub enqueue_failure : Queue → String → String → String → ℕ → Queue × Outcome
unfolding exhaust schedule
enqueue_failure q h goal reason now = elim (get h q.claims.ledger) [
  | none ↦ (q, exhausted)
  | some r ↦
      if ltb q.cfg.max_attempts (r.attempt + 1)
      then (exhaust q h r reason now, exhausted)
      else schedule q h goal r reason now
]

unfoldable pub is_queued : Option ClaimRecord → Bool
unfolding same
is_queued none = false
is_queued (some r) = same r.state retry_queued

-- The loop that forgets the tasks whose claims no longer wait for a retry.
unfoldable pub forget : Machine → List String → Table Pending → Table Pending
unfolding is_queued
forget m [] t = t
forget m (h ∷ hs) t = forget m hs (if is_queued (get h m.ledger) then t else delete h t)

-- One round of the loop over the due claims.
unfoldable pub dispatch_one : Dispatcher → Queue → ℕ → ClaimRecord → Queue
dispatch_one f q now r = elim (get r.task_hash q.pending) [
  | none ↦ record q { claims = (release q.claims r.task_hash "retry_due_without_payload" now).0 }
  | some p ↦ record q {
    pending = delete r.task_hash q.pending;
    emitted = retry_dispatching p.dispatch ∷ q.emitted;
    claims = f q.claims p.goal;
  }
]

unfoldable pub dispatch_all : Dispatcher → Queue → ℕ → List ClaimRecord → Queue
unfolding dispatch_one
dispatch_all f q now [] = q
dispatch_all f q now (r ∷ rs) = dispatch_all f (dispatch_one f q now r) now rs

unfoldable pub sweep : Queue → ℕ → Queue
unfolding forget dispatch_all
sweep q now = elim q.dispatcher [
  | none ↦ q
  | some f ↦
      dispatch_all f (record q { pending = forget q.claims (keys q.pending) q.pending }) now
        (due_for_retry q.claims now)
]
