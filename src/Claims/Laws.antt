-- ===== src/Claims/Laws.antt =====
-- src/protocols/TaskClaimMachine.ts: the ledger as a product of independent tasks.
use kovael.Common.{
  ℕ, ◌+◌, ◌≡◌, String, false, Option, none, some, arith, str_eq, eq_iff, str_eq_self, if◌then◌else◌,
  Option-cases, inl, inr,
}
use kovael.Table.{get}
use kovael.Table.Laws.{get-set, get-delete}
use kovael.Claims.{
  ClaimState, unclaimed, claimed, running, retry_queued, released, ClaimRecord, Machine, Call,
  includes, legal, registers, try_claims, marks_running, marks_retry, releases, prunes, new_record,
  moved, put, register, transition, claim_fresh, try_claim, mark_running, set_retry_after,
  mark_retry_queued, release, prune, target, step,
}

-- What a claim makes of a record that waits for one.
abbrev pub claim_from : ClaimState → ClaimRecord → String → ℕ → ClaimRecord
claim_from unclaimed r cycle_id now = moved r claimed (some cycle_id) now
claim_from retry_queued r cycle_id now = moved r claimed (some cycle_id) now
claim_from _ r cycle_id now = r

abbrev pub run_from : ClaimState → ClaimRecord → String → ℕ → ClaimRecord
run_from claimed r cycle_id now = moved r running (some cycle_id) now
run_from _ r cycle_id now = r

abbrev pub retry_from : ClaimState → ClaimRecord → ℕ → ℕ → ClaimRecord
retry_from running r after now = record (moved r retry_queued none now) {
  retry_after = some (now + after);
}
retry_from _ r after now = r

abbrev pub release_from : ClaimState → ClaimRecord → ℕ → ClaimRecord
release_from released r now = r
release_from _ r now = moved r released none now

-- The call's effect on its own task, without the ledger: a task is absent or has a record.
abbrev pub task_after : Call → ℕ → Option ClaimRecord → Option ClaimRecord
task_after (registers h _) now none = some (new_record h now)
task_after (try_claims h c _) now none = some (claim_from unclaimed (new_record h now) c now)
task_after (prunes h) now o = none
task_after _ now none = none
task_after (registers h _) now (some r) = some r
task_after (try_claims h c _) now (some r) = some (claim_from r.state r c now)
task_after (marks_running h c) now (some r) = some (run_from r.state r c now)
task_after (marks_retry h after _) now (some r) = some (retry_from r.state r after now)
task_after (releases h _) now (some r) = some (release_from r.state r now)

get-register :
    (m : Machine) (h j : String) (reason : Option String) (now : ℕ)
    → get j (register m h reason now).0.ledger ≡ (
        if str_eq h j then task_after (registers h reason) now (get j m.ledger) else get j m.ledger)
unfolding register
get-register m h j reason now = ground (arith, eq_iff h j, get-set h j (new_record h now) m.ledger)

abbrev transition_after : ClaimState → Option String → ℕ → Option ClaimRecord → Option ClaimRecord
transition_after next cycle_id now none = none
transition_after next cycle_id now (some r) =
    some (if includes (legal r.state) next then moved r next cycle_id now else r)

get-transition :
    (m : Machine) (h j : String) (next : ClaimState) (cycle_id reason : Option String) (now : ℕ)
    → get j (transition m h next cycle_id reason now).0.ledger
      ≡ (if str_eq h j then transition_after next cycle_id now (get j m.ledger) else get j m.ledger)
unfolding transition put
get-transition m h j next cycle_id reason now = elim (Option-cases (get h m.ledger)) [
  | inl e ↦ rw (e, transition) (ground (arith, eq_iff h j))
  | inr (r, e) ↦
      rw (e, transition)
        (ground (arith, eq_iff h j, get-set h j (moved r next cycle_id now) m.ledger))
]

-- A transition is accepted exactly when the task has a record and the table allows the move.
pub transition-accepted :
    (m : Machine) (h : String) (next : ClaimState) (cycle_id reason : Option String) (now : ℕ)
    → (transition m h next cycle_id reason now).1
      ≡ elim (get h m.ledger) [ none ↦ false | some r ↦ includes (legal r.state) next ]
unfolding transition
transition-accepted m h next cycle_id reason now = ground arith

get-try_claim :
    (m : Machine) (h j c : String) (reason : Option String) (now : ℕ)
    → get j (try_claim m h c reason now).0.ledger ≡ (
        if str_eq h j
        then task_after (try_claims h c reason) now (get j m.ledger)
        else get j m.ledger)
unfolding try_claim claim_fresh
get-try_claim m h j c reason now =
    let m' = (register m h none now).0 in
    ground (
      arith,
      eq_iff h j,
      str_eq_self h,
      get-register m h j none now,
      get-register m h h none now,
      get-transition m' h j claimed (some c) reason now,
    )

get-set_retry_after :
    (m : Machine) (h j : String) (at : ℕ)
    → get j (set_retry_after m h at).ledger ≡ (
        if str_eq h j
        then elim (get j m.ledger) [
          | none ↦ none
          | some r ↦ some (record r { retry_after = some at })
        ]
        else get j m.ledger)
unfolding set_retry_after
get-set_retry_after m h j at = elim (Option-cases (get h m.ledger)) [
  | inl e ↦ rw (e, set_retry_after) (ground (arith, eq_iff h j))
  | inr (r, e) ↦
      rw (e, set_retry_after)
        (ground (arith, eq_iff h j, get-set h j (record r { retry_after = some at }) m.ledger))
]

pub get-mark_retry_queued :
    (m : Machine) (h j : String) (after : ℕ) (reason : Option String) (now : ℕ)
    → get j (mark_retry_queued m h after reason now).0.ledger ≡ (
        if str_eq h j
        then task_after (marks_retry h after reason) now (get j m.ledger)
        else get j m.ledger)
unfolding mark_retry_queued includes legal
get-mark_retry_queued m h j after reason now =
    let m' = (transition m h retry_queued none reason now).0 in
    ground (
      arith,
      eq_iff h j,
      get-transition m h j retry_queued none reason now,
      transition-accepted m h retry_queued none reason now,
      get-set_retry_after m' h j (now + after),
    )

-- A call changes its own task as `task_after` says and no other.
pub get-step :
    (m : Machine) (j : String) (now : ℕ) (c : Call)
    → get j (step m (now, c)).ledger
      ≡ (if str_eq (target c) j then task_after c now (get j m.ledger) else get j m.ledger)
unfolding step target mark_running release prune includes legal
get-step m j now (registers h reason) = get-register m h j reason now
get-step m j now (try_claims h c reason) = get-try_claim m h j c reason now
get-step m j now (marks_running h c) =
    ground (arith, get-transition m h j running (some c) none now)
get-step m j now (marks_retry h after reason) = get-mark_retry_queued m h j after reason now
get-step m j now (releases h reason) =
    ground (arith, get-transition m h j released none (some reason) now)
get-step m j now (prunes h) = get-delete h j m.ledger

pub get-release :
    (m : Machine) (h j reason : String) (now : ℕ)
    → get j (release m h reason now).0.ledger
      ≡ (if str_eq h j then task_after (releases h reason) now (get j m.ledger) else get j m.ledger)
unfolding step target
get-release m h j reason now = get-step m j now (releases h reason)
