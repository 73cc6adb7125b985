-- ===== src/Retries/Failures.antt =====
-- src/services/RetryQueue.ts: the outcome of a failure, and when its retry is due.
use kovael.Common.{
  ℕ, ◌+◌, ◌≤◌, ◌≡◌, sym, ◌∙◌, String, Bool, true, false, Option, none, some, arith, leb, ltb,
  str_eq, eq_iff, str_eq_self, if◌then◌else◌, Option-cases, Bool-cases, inl, inr, ◌+++◌,
}
use kovael.Table.{get}
use kovael.Table.Laws.{get-set}
use kovael.Claims.{
  running, retry_queued, ClaimRecord, Machine, same, mark_retry_queued, marks_retry, releases,
  is_due, includes, legal, moved,
}
use kovael.Claims.Laws.{get-release, get-mark_retry_queued, task_after, transition-accepted}
use kovael.Retries.{
  Config, Queue, Pending, Outcome, retry, exhausted, backoff, failed_reason, dispatch_of, exhaust,
  schedule, enqueue_failure,
}

-- A failure is retried exactly when its task is running and has attempts left.
abbrev pub outcome : Config → Option ClaimRecord → Outcome
outcome cfg none = exhausted
outcome cfg (some r) =
    if ltb cfg.max_attempts (r.attempt + 1)
    then exhausted
    else if same r.state running
    then retry
    else exhausted

-- The task's record after a failure, without the ledger.
abbrev pub record_after : Config → ℕ → Option ClaimRecord → Option ClaimRecord
record_after cfg now none = none
record_after cfg now (some r) =
    if ltb cfg.max_attempts (r.attempt + 1)
    then task_after (releases "" "") now (some r)
    else task_after (marks_retry "" (backoff cfg r) none) now (some r)

-- What waits for the task after a failure.
abbrev pub pending_after :
    Config → String → String → String → ℕ → Option ClaimRecord → Option Pending → Option Pending
pending_after cfg h goal reason now none p = p
pending_after cfg h goal reason now (some r) p = elim (outcome cfg (some r)) [
  | retry ↦ some (record { goal = goal; dispatch = dispatch_of cfg r h reason now })
  | exhausted ↦ p
]

mark-accepted :
    (m : Machine) (h : String) (after : ℕ) (reason : Option String) (now : ℕ) (r : ClaimRecord)
    → get h m.ledger ≡ some r
    → (mark_retry_queued m h after reason now).1 ≡ same r.state running
unfolding mark_retry_queued includes legal same
mark-accepted m h after reason now r e =
    ground (arith, transition-accepted m h retry_queued none reason now)

pub record IsHandled (q : Queue) (h goal reason : String) (now : ℕ) (q' : Queue) (o : Outcome)
    : Type 0 where
  pub answered : o ≡ outcome q.cfg (get h q.claims.ledger)
  pub recorded :
      (j : String)
      → get j q'.claims.ledger ≡ (
          if str_eq h j
          then record_after q.cfg now (get j q.claims.ledger)
          else get j q.claims.ledger)
  pub waiting :
      (j : String)
      → get j q'.pending ≡ (
          if str_eq h j
          then pending_after q.cfg h goal reason now (get j q.claims.ledger) (get j q.pending)
          else get j q.pending)

schedule-IsHandled :
    (q : Queue) (h goal : String) (r : ClaimRecord) (reason : String) (now : ℕ)
    → get h q.claims.ledger ≡ some r
    → ltb q.cfg.max_attempts (r.attempt + 1) ≡ false
    → IsHandled q h goal reason now
        (schedule q h goal r reason now).0
        (schedule q h goal r reason now).1
unfolding schedule
schedule-IsHandled q h goal r reason now e l =
    let why = some (failed_reason r reason) in
    let a = mark-accepted q.claims h (backoff q.cfg r) why now r e in
    let p : Pending = record { goal = goal; dispatch = dispatch_of q.cfg r h reason now } in
    record {
      answered = ground (arith, a);
      recorded = λ j.
          ground
            (arith, eq_iff h j, a, get-mark_retry_queued q.claims h j (backoff q.cfg r) why now);
      waiting = λ j. ground (arith, eq_iff h j, a, get-set h j p q.pending);
    }

exhaust-IsHandled :
    (q : Queue) (h goal : String) (r : ClaimRecord) (reason : String) (now : ℕ)
    → get h q.claims.ledger ≡ some r
    → ltb q.cfg.max_attempts (r.attempt + 1) ≡ true
    → IsHandled q h goal reason now (exhaust q h r reason now) exhausted
unfolding exhaust
exhaust-IsHandled q h goal r reason now e l = record {
  answered = ground (arith, e);
  recorded =
      λ j. ground (arith, eq_iff h j, get-release q.claims h j ("retry_exhausted:" +++ reason) now);
  waiting = λ j. ground (arith, eq_iff h j, e);
}

-- A failure is answered `retry` exactly when its task is running with attempts left, and then its
-- claim and its goal wait for the retry; with no attempt left a claim is released; a task that is
-- not running keeps its claim otherwise; and no other task is touched.
pub enqueue_failure-IsHandled :
    (q : Queue) (h goal reason : String) (now : ℕ)
    → IsHandled q h goal reason now
        (enqueue_failure q h goal reason now).0
        (enqueue_failure q h goal reason now).1
unfolding enqueue_failure
enqueue_failure-IsHandled q h goal reason now = elim (Option-cases (get h q.claims.ledger)) [
  | inl e ↦
      rw (e, enqueue_failure)
        (record {
          answered = ground (arith, e);
          recorded = λ j. ground (arith, eq_iff h j, e);
          waiting = λ j. ground (arith, eq_iff h j, e);
        })
  | inr (r, e) ↦ elim (Bool-cases (ltb q.cfg.max_attempts (r.attempt + 1))) [
    | inl l ↦ rw (e, enqueue_failure, l) (exhaust-IsHandled q h goal r reason now e l)
    | inr l ↦ rw (e, enqueue_failure, l) (schedule-IsHandled q h goal r reason now e l)
  ]
]

abbrev pub due? : ℕ → Option ClaimRecord → Bool
due? at none = false
due? at (some r) = is_due at r

after-due :
    (cfg : Config) (h goal reason : String) (now at : ℕ) (o : Option ClaimRecord)
    (p : Option Pending) (p' : Pending)
    → outcome cfg o ≡ retry
    → pending_after cfg h goal reason now o p ≡ some p'
    → (due? at (record_after cfg now o) ≡ leb p'.dispatch.scheduled_for at)
      × (p'.goal ≡ goal)
      × (p'.dispatch.attempt ≤ cfg.max_attempts)
unfolding is_due same moved dispatch_of
after-due cfg h goal reason now at none p p' a e = ground arith
after-due cfg h goal reason now at (some r) p p' a e = ground arith

-- After a failure that is to be retried the task's goal is pending, its attempt is within the
-- maximum, and the ledger has the claim due exactly from the scheduled time on.
pub enqueue_failure-due :
    (q : Queue) (h goal reason : String) (now at : ℕ) (p : Pending)
    → (enqueue_failure q h goal reason now).1 ≡ retry
    → get h (enqueue_failure q h goal reason now).0.pending ≡ some p
    → (due? at (get h (enqueue_failure q h goal reason now).0.claims.ledger)
        ≡ leb p.dispatch.scheduled_for at)
      × (p.goal ≡ goal)
      × (p.dispatch.attempt ≤ q.cfg.max_attempts)
enqueue_failure-due q h goal reason now at p a e =
    let v = enqueue_failure-IsHandled q h goal reason now in
    let o = get h q.claims.ledger in
    let w = v.waiting h in
    let c = v.recorded h in
    rw c (
      rw (str_eq_self h) (
        after-due q.cfg h goal reason now at o (get h q.pending) p (sym v.answered ∙ a)
          (rw (str_eq_self h) at (sym w ∙ e))))
