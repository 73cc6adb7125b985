-- ===== src/Claims/Exclusion.antt =====
-- src/protocols/TaskClaimMachine.ts: who may claim a task, and when it can be claimed again.
use kovael.Common.{
  ℕ, ◌≡◌, ◌∙◌, String, Bool, true, false, Option, none, some, List, [], ◌∷◌, arith, str_eq,
  str_eq_self, All, Option-cases, inl, inr,
}
use kovael.Table.{get}
use kovael.Table.Laws.{get-set}
use kovael.Claims.Laws.{get-step, task_after}
use kovael.Claims.{
  unclaimed, retry_queued, ClaimRecord, Machine, Call, moved, try_claims, marks_retry, prunes,
  register, new_record, includes, legal, put, transition, claim_fresh, try_claim, same, target,
  step, run,
}

-- A task that a claim would get: one never seen, one that waits, one queued for a retry.
abbrev pub is_open : Option ClaimRecord → Bool
is_open none = true
is_open (some r) = elim r.state [ unclaimed ↦ true | retry_queued ↦ true | _ ↦ false ]

-- `tryClaim` returns true exactly when the task is open: never seen, unclaimed or queued for retry.
pub try_claim-is_open :
    (m : Machine) (h cycle_id : String) (reason : Option String) (now : ℕ)
    → (try_claim m h cycle_id reason now).1 ≡ is_open (get h m.ledger)
unfolding try_claim claim_fresh transition register same includes legal put new_record get
try_claim-is_open m h cycle_id reason now = elim (Option-cases (get h m.ledger)) [
  | inl e ↦
      rw (e, try_claim, register)
        (ground (arith, get-set h h (new_record h now) m.ledger, str_eq_self h))
  | inr (r, e) ↦ rw (e, try_claim, register) (ground arith)
]

-- The calls that open a held task again.
abbrev pub reopens : String → Call → Bool
reopens h (marks_retry j _ _) = str_eq j h
reopens h (prunes j) = str_eq j h
reopens h _ = false

task_after-held :
    (c : Call) (h : String) (now : ℕ) (o : Option ClaimRecord)
    → str_eq (target c) h ≡ true
    → reopens h c ≡ false
    → is_open o ≡ false
    → is_open (task_after c now o) ≡ false
unfolding target moved
task_after-held c h now o t k e = ground arith

step-held :
    (m : Machine) (h : String) (c : ℕ × Call)
    → reopens h c.1 ≡ false
    → is_open (get h m.ledger) ≡ false
    → is_open (get h (step m c).ledger) ≡ false
step-held m h (now, c) k e =
    ground (arith, get-step m h now c, task_after-held c h now (get h m.ledger))

-- A claim that is won holds the task for its cycle, one attempt further.
claimed_held :
    (m : Machine) (h cycle_id : String) (reason : Option String) (now : ℕ)
    → (try_claim m h cycle_id reason now).1 ≡ true
    → is_open (get h (try_claim m h cycle_id reason now).0.ledger) ≡ false
unfolding moved step target
claimed_held m h cycle_id reason now won = ground (
  arith,
  try_claim-is_open m h cycle_id reason now,
  str_eq_self h,
  get-step m h now (try_claims h cycle_id reason),
)

run-held :
    (cs : List (ℕ × Call)) (m : Machine) (h : String)
    → All (λ c. reopens h c.1 ≡ false) cs
    → is_open (get h m.ledger) ≡ false
    → is_open (get h (run m cs).ledger) ≡ false
unfolding run
run-held [] m h a e = e
run-held (c ∷ cs) m h a e = run-held cs (step m c) h a.1 (step-held m h c a.0 e)

-- Once a claim has got the task, no claim gets it again, whatever calls come in between, unless
-- one of them queues the task for a retry or removes its record.
pub try_claim_once :
    (m : Machine) (h first second : String) (reason reason' : Option String) (now later : ℕ)
    (cs : List (ℕ × Call))
    → (try_claim m h first reason now).1 ≡ true
    → All (λ c. reopens h c.1 ≡ false) cs
    → (try_claim (run (try_claim m h first reason now).0 cs) h second reason' later).1 ≡ false
try_claim_once m h first second reason reason' now later cs won a =
    let m' = (try_claim m h first reason now).0 in
    try_claim-is_open (run m' cs) h second reason' later
    ∙ run-held cs m' h a (claimed_held m h first reason now won)
