-- ===== src/Claims/Diagram.antt =====
-- src/protocols/TaskClaimMachine.ts: the diagram of claim states, apart from the table LEGAL.
use kovael.Common.{
  ℕ, ◌+◌, ◌≡◌, refl, String, Bool, false, some, List, [], ◌∷◌, arith, str_eq, All, ◌⊎◌, inl, inr,
  Bool-cases, subst, sym, ap, ◌∙◌,
}
use kovael.Table.{get}
use kovael.Claims.Laws.{get-step, task_after, claim_from, run_from, retry_from, release_from}
use kovael.Claims.{
  ClaimState, unclaimed, claimed, running, retry_queued, released, ClaimRecord, Machine, Call,
  registers, try_claims, marks_running, marks_retry, releases, prunes, moved, same, target, step,
  run,
}

infix 40 ◌⟶◌
pub data ◌⟶◌ : ClaimState → ClaimState → Type 0 where
  reserve : unclaimed ⟶ claimed
  start : claimed ⟶ running
  fail : running ⟶ retry_queued
  retry : retry_queued ⟶ claimed
  drop : (s : ClaimState) → same s released ≡ false → s ⟶ released

-- How many attempts the entry into a state counts.
abbrev pub attempts_in : ClaimState → ℕ
attempts_in claimed = 1
attempts_in _ = 0

-- Between two calls a task that stays in the ledger is untouched or has moved along one edge.
abbrev pub Follows : ℕ → ClaimRecord → ClaimRecord → Type 0
Follows now r r' =
    (r.state ⟶ r'.state)
    × (r'.attempt ≡ r.attempt + attempts_in r'.state)
    × (r'.updated_at ≡ now)
    × (r'.first_seen ≡ r.first_seen)
    × (r'.task_hash ≡ r.task_hash)

run_from-Follows :
    (s : ClaimState) (r : ClaimRecord) (c : String) (now : ℕ)
    → r.state ≡ s
    → (run_from s r c now ≡ r) ⊎ Follows now r (run_from s r c now)
unfolding moved same
run_from-Follows claimed r c now e = inr (rw e start, omega arith, refl, refl, refl)
run_from-Follows _ r c now e = inl refl

claim_from-Follows :
    (s : ClaimState) (r : ClaimRecord) (c : String) (now : ℕ)
    → r.state ≡ s
    → (claim_from s r c now ≡ r) ⊎ Follows now r (claim_from s r c now)
unfolding moved same
claim_from-Follows unclaimed r c now e = inr (rw e reserve, refl, refl, refl, refl)
claim_from-Follows retry_queued r c now e = inr (rw e retry, refl, refl, refl, refl)
claim_from-Follows _ r c now e = inl refl

retry_from-Follows :
    (s : ClaimState) (r : ClaimRecord) (after now : ℕ)
    → r.state ≡ s
    → (retry_from s r after now ≡ r) ⊎ Follows now r (retry_from s r after now)
unfolding moved same
retry_from-Follows running r after now e = inr (rw e fail, omega arith, refl, refl, refl)
retry_from-Follows _ r after now e = inl refl

release_from-Follows :
    (s : ClaimState) (r : ClaimRecord) (now : ℕ)
    → r.state ≡ s
    → (release_from s r now ≡ r) ⊎ Follows now r (release_from s r now)
unfolding moved same
release_from-Follows released r now e = inl refl
release_from-Follows _ r now e = inr (rw e (drop _ refl), omega arith, refl, refl, refl)

task_after-Follows :
    (c : Call) (now : ℕ) (r r' : ClaimRecord)
    → task_after c now (some r) ≡ some r'
    → (r' ≡ r) ⊎ Follows now r r'
task_after-Follows (registers h _) now r r' e = inl (ground arith)
task_after-Follows (try_claims h c _) now r r' e =
    subst (λ x. (x ≡ r) ⊎ Follows now r x) (cc) (claim_from-Follows r.state r c now refl)
task_after-Follows (marks_running h c) now r r' e =
    subst (λ x. (x ≡ r) ⊎ Follows now r x) (cc) (run_from-Follows r.state r c now refl)
task_after-Follows (marks_retry h after _) now r r' e =
    subst (λ x. (x ≡ r) ⊎ Follows now r x) (cc) (retry_from-Follows r.state r after now refl)
task_after-Follows (releases h _) now r r' e =
    subst (λ x. (x ≡ r) ⊎ Follows now r x) (cc) (release_from-Follows r.state r now refl)
task_after-Follows (prunes h) now r r' e = cc

-- Whatever the call, a task that is in the ledger before and after it is untouched, or has moved
-- along one edge of the diagram at the call's time, with its attempts counted by claims only.
pub step-Follows :
    (m : Machine) (now : ℕ) (c : Call) (j : String) (r r' : ClaimRecord)
    → get j m.ledger ≡ some r
    → get j (step m (now, c)).ledger ≡ some r'
    → (r' ≡ r) ⊎ Follows now r r'
step-Follows m now c j r r' before after = elim (Bool-cases (str_eq (target c) j)) [
  | inl own ↦
      task_after-Follows c now r r'
        (sym (ap (task_after c now) before) ∙ sym (get-step m j now c ∙ rw own refl) ∙ after)
  | inr other ↦ inl (ground (arith, get-step m j now c))
]

-- The calls that remove a task's record.
abbrev pub removes : String → Call → Bool
removes h (prunes j) = str_eq j h
removes h _ = false

step_released :
    (m : Machine) (now : ℕ) (c : Call) (h : String) (r : ClaimRecord)
    → removes h c ≡ false
    → r.state ≡ released
    → get h m.ledger ≡ some r
    → get h (step m (now, c)).ledger ≡ some r
unfolding target
step_released m now c h r k d e = ground (arith, get-step m h now c)

-- A released task keeps its record under any calls but its own removal.
pub run_released :
    (cs : List (ℕ × Call)) (m : Machine) (h : String) (r : ClaimRecord)
    → All (λ c. removes h c.1 ≡ false) cs
    → r.state ≡ released
    → get h m.ledger ≡ some r
    → get h (run m cs).ledger ≡ some r
unfolding run
run_released [] m h r a d e = e
run_released ((now, c) ∷ cs) m h r a d e =
    run_released cs (step m (now, c)) h r a.1 d (step_released m now c h r a.0 d e)
