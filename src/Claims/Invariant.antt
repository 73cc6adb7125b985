-- ===== src/Claims/Invariant.antt =====
-- src/protocols/TaskClaimMachine.ts: what holds of every record in a ledger.
use kovael.Common.{
  ℕ, ◌+◌, ◌≤◌, ◌≡◌, refl, ◌∙◌, String, true, Option, none, some, List, [], ◌∷◌, arith, str_eq,
  eq_iff, Bool-cases, inl, inr, length, is_some, subst, length-map,
}
use kovael.Table.{get, values, size}
use kovael.Claims.Laws.{get-step, task_after}
use kovael.Claims.{
  ClaimState, unclaimed, claimed, running, retry_queued, released, ClaimRecord, Machine, Call,
  moved, same, empty, target, step, run, count_state, stats, new_record,
}

-- How a state bounds the attempts.
abbrev Counted : ClaimState → ℕ → Type 0
Counted unclaimed n = n ≡ 0
Counted released n = Unit
Counted _ n = 1 ≤ n

-- A task queued for a retry knows when the retry is due.
abbrev Timed : ClaimState → Option ℕ → Type 0
Timed retry_queued o = is_some o ≡ true
Timed _ o = Unit

pub record IsTask (h : String) (r : ClaimRecord) : Type 0 where
  pub named : r.task_hash ≡ h
  pub counted : Counted r.state r.attempt
  pub timed : Timed r.state r.retry_after

abbrev IsTaskOf : String → Option ClaimRecord → Type 0
IsTaskOf h none = Unit
IsTaskOf h (some r) = IsTask h r

task_after-IsTaskOf :
    (c : Call) (now : ℕ) (o : Option ClaimRecord)
    → IsTaskOf (target c) o
    → IsTaskOf (target c) (task_after c now o)
unfolding target moved same new_record
task_after-IsTaskOf c now o i = ground arith

pub IsLedger : Machine → Type 0
IsLedger m = (h : String) → IsTaskOf h (get h m.ledger)

step-IsLedger : (m : Machine) (c : ℕ × Call) → IsLedger m → IsLedger (step m c)
unfolding IsLedger
step-IsLedger m (now, c) v j = elim (Bool-cases (str_eq (target c) j)) [
  | inl own ↦
      let e = (eq_iff (target c) j).0 own in
      rw (get-step m j now c, own)
        (subst (λ x. IsTaskOf x (task_after c now (get x m.ledger))) e
          (task_after-IsTaskOf c now (get (target c) m.ledger) (v (target c))))
  | inr other ↦ rw (get-step m j now c, other) (v j)
]

run-IsLedger : (cs : List (ℕ × Call)) (m : Machine) → IsLedger m → IsLedger (run m cs)
unfolding run
run-IsLedger [] m v = v
run-IsLedger (c ∷ cs) m v = run-IsLedger cs (step m c) (step-IsLedger m c v)

empty-IsLedger : IsLedger empty
unfolding IsLedger get
empty-IsLedger h = tt

-- After any calls at all, a record in the ledger stands under its own hash, has no attempt while
-- unclaimed and at least one while claimed, running or queued for a retry, and in the last of these
-- states it knows when the retry is due.
pub run-IsTask :
    (cs : List (ℕ × Call)) (h : String) (r : ClaimRecord)
    → get h (run empty cs).ledger ≡ some r
    → IsTask h r
unfolding IsLedger
run-IsTask cs h r e = rw e at (run-IsLedger cs empty empty-IsLedger h)

-- A sum over the states.
abbrev pub total : (ClaimState → ℕ) → ℕ
total f = f unclaimed + f claimed + f running + f retry_queued + f released

count_total : (rs : List ClaimRecord) → total (λ s. count_state s rs) ≡ length rs
unfolding count_state same
count_total [] = refl
count_total (r ∷ rs) = ground (arith, count_total rs)

-- The counts that `stats` gives for the five states add up to the number of tasks in the ledger.
pub total-stats : (m : Machine) → total (stats m) ≡ size m.ledger
unfolding stats
total-stats m = count_total (values m.ledger) ∙ length-map (λ e. e.1) m.ledger
