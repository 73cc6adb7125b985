-- ===== src/Claims/Keyed.antt =====
-- src/protocols/TaskClaimMachine.ts: each record stands under its own hash, and no hash has two.
use kovael.Common.{
  ℕ, ◌+◌, ◌≡◌, refl, String, Option, none, some, List, [], ◌∷◌, arith, Option-cases, inl, inr,
}
use kovael.Table.{get}
use kovael.Table.Laws.{Unique, set-Unique, delete-Unique}
use kovael.Table.Entries.{AllEntries, AllEntries-set, AllEntries-delete, AllEntries-get}
use kovael.Claims.{
  ClaimState, ClaimRecord, Machine, Call, registers, try_claims, marks_running, marks_retry,
  releases, prunes, claimed, running, retry_queued, released, empty, put, new_record, moved,
  register, transition, claim_fresh, try_claim, mark_running, set_retry_after, mark_retry_queued,
  release, prune, step, run,
}

abbrev pub IsOwn : String → ClaimRecord → Type 0
IsOwn h r = r.task_hash ≡ h

pub record IsKeyed (m : Machine) : Type 0 where
  pub unique : Unique m.ledger
  pub own : AllEntries IsOwn m.ledger

put-IsKeyed :
    (m : Machine) (h : String) (r : ClaimRecord) (previous : Option ClaimState)
    (reason : Option String)
    → r.task_hash ≡ h
    → IsKeyed m
    → IsKeyed (put m h r previous reason)
unfolding put
put-IsKeyed m h r previous reason e v = record {
  unique = set-Unique h r m.ledger v.unique;
  own = AllEntries-set IsOwn h r m.ledger e v.own;
}

pub register-IsKeyed :
    (m : Machine) (h : String) (reason : Option String) (now : ℕ)
    → IsKeyed m
    → IsKeyed (register m h reason now).0
unfolding register new_record
register-IsKeyed m h reason now v = elim (Option-cases (get h m.ledger)) [
  | inl e ↦ rw (e, register) (put-IsKeyed m h (new_record h now) none reason refl v)
  | inr (r, e) ↦ rw (e, register) v
]

pub transition-IsKeyed :
    (m : Machine) (h : String) (next : ClaimState) (cycle_id reason : Option String) (now : ℕ)
    → IsKeyed m
    → IsKeyed (transition m h next cycle_id reason now).0
unfolding transition moved
transition-IsKeyed m h next cycle_id reason now v = elim (Option-cases (get h m.ledger)) [
  | inl e ↦ rw (e, transition) v
  | inr (r, e) ↦
      rw (e, transition)
        (ground (
          arith,
          put-IsKeyed m h (moved r next cycle_id now) (some r.state) reason
              (AllEntries-get IsOwn h r m.ledger v.own e) v,
        ))
]

set_retry_after-IsKeyed :
    (m : Machine) (h : String) (at : ℕ) → IsKeyed m → IsKeyed (set_retry_after m h at)
unfolding set_retry_after
set_retry_after-IsKeyed m h at v = elim (Option-cases (get h m.ledger)) [
  | inl e ↦ rw (e, set_retry_after) v
  | inr (r, e) ↦
      rw (e, set_retry_after)
        (record {
          unique = set-Unique h (record r { retry_after = some at }) m.ledger v.unique;
          own =
              AllEntries-set IsOwn h (record r { retry_after = some at }) m.ledger
                (AllEntries-get IsOwn h r m.ledger v.own e) v.own;
        })
]

claim_fresh-IsKeyed :
    (m : Machine) (h c : String) (reason : Option String) (now : ℕ)
    → IsKeyed m
    → IsKeyed (claim_fresh m h c reason now).0
unfolding claim_fresh
claim_fresh-IsKeyed m h c reason now v =
    ground (arith, transition-IsKeyed m h claimed (some c) reason now v)

pub step-IsKeyed : (m : Machine) (c : ℕ × Call) → IsKeyed m → IsKeyed (step m c)
unfolding step mark_running mark_retry_queued release prune try_claim
step-IsKeyed m (now, registers h reason) v = register-IsKeyed m h reason now v
step-IsKeyed m (now, try_claims h c reason) v =
    claim_fresh-IsKeyed (register m h none now).0 h c reason now (register-IsKeyed m h none now v)
step-IsKeyed m (now, marks_running h c) v = transition-IsKeyed m h running (some c) none now v
step-IsKeyed m (now, marks_retry h after reason) v =
    let m' = (transition m h retry_queued none reason now).0 in
    let v' = transition-IsKeyed m h retry_queued none reason now v in
    ground (arith, set_retry_after-IsKeyed m' h (now + after) v')
step-IsKeyed m (now, releases h reason) v = transition-IsKeyed m h released none (some reason) now v
step-IsKeyed m (now, prunes h) v = record {
  unique = delete-Unique h m.ledger v.unique;
  own = AllEntries-delete IsOwn h m.ledger v.own;
}

-- Whatever calls are made of an empty ledger, each record stands under its own hash and no hash
-- has two.
pub run-IsKeyed : (cs : List (ℕ × Call)) (m : Machine) → IsKeyed m → IsKeyed (run m cs)
unfolding run
run-IsKeyed [] m v = v
run-IsKeyed (c ∷ cs) m v = run-IsKeyed cs (step m c) (step-IsKeyed m c v)

pub empty-IsKeyed : IsKeyed empty
empty-IsKeyed = record { unique = tt; own = tt }
