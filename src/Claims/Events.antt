-- ===== src/Claims/Events.antt =====
-- src/protocols/TaskClaimMachine.ts: the stream of claim events against the ledger.
use kovael.Common.{
  ℕ, ◌+◌, ◌≡◌, refl, String, Bool, true, Option, none, some, List, [], ◌∷◌, arith, str_eq, eq_iff,
  if◌then◌else◌, Bool-cases, not, ◌&&◌, Option-cases, inl, inr, All,
}
use kovael.Table.{get}
use kovael.Table.Laws.{get-set, get-delete}
use kovael.Claims.Diagram.{◌⟶◌, reserve, start, fail, retry, drop}
use kovael.Claims.{
  ClaimState, unclaimed, claimed, running, retry_queued, released, ClaimRecord, ClaimEvent, Machine,
  Call, registers, try_claims, marks_running, marks_retry, releases, prunes, moved, same, empty,
  put, event_from, register, transition, claim_fresh, try_claim, mark_running, set_retry_after,
  mark_retry_queued, release, prune, step, run, new_record, legal, includes,
}

-- The newest event about a task.
pub latest : String → List ClaimEvent → Option ClaimEvent
latest h [] = none
latest h (e ∷ es) = if str_eq e.task_hash h then some e else latest h es

-- What an event tells of a record, and the record's own account.
abbrev pub told : ClaimEvent → ClaimState × ℕ × ℕ × Option String
told e = (e.state, e.attempt, e.timestamp, e.cycle_id)

abbrev pub account : ClaimRecord → ClaimState × ℕ × ℕ × Option String
account r = (r.state, r.attempt, r.updated_at, r.cycle_id)

abbrev Told : String → Option ClaimRecord → Option ClaimEvent → Type 0
Told h none e = Unit
Told h (some r) none = ⊥
Told h (some r) (some e) = (told e ≡ account r) × (r.task_hash ≡ h)

pub Mirrors : Machine → Type 0
Mirrors m = (h : String) → Told h (get h m.ledger) (latest h m.emitted)

put-Mirrors :
    (m : Machine) (h : String) (r : ClaimRecord) (p : Option ClaimState) (reason : Option String)
    → r.task_hash ≡ h
    → Mirrors m
    → Mirrors (put m h r p reason)
unfolding Mirrors put latest event_from
put-Mirrors m h r p reason e v j = ground (arith, get-set h j r m.ledger, v j, eq_iff h j)

register-Mirrors :
    (m : Machine) (h : String) (reason : Option String) (now : ℕ)
    → Mirrors m
    → Mirrors (register m h reason now).0
unfolding register new_record
register-Mirrors m h reason now v = elim (Option-cases (get h m.ledger)) [
  | inl e ↦ rw (e, register) (put-Mirrors m h (new_record h now) none reason refl v)
  | inr (r, e) ↦ rw (e, register) v
]

hash_of_Mirrors :
    (m : Machine) (h : String) (r : ClaimRecord)
    → Mirrors m
    → get h m.ledger ≡ some r
    → r.task_hash ≡ h
unfolding Mirrors
hash_of_Mirrors m h r v e = ground (arith, v h)

transition-Mirrors :
    (m : Machine) (h : String) (next : ClaimState) (c reason : Option String) (now : ℕ)
    → Mirrors m
    → Mirrors (transition m h next c reason now).0
unfolding transition moved
transition-Mirrors m h next c reason now v = elim (Option-cases (get h m.ledger)) [
  | inl e ↦ rw (e, transition) v
  | inr (r, e) ↦ elim (Bool-cases (includes (legal r.state) next)) [
    | inl ok ↦
        rw (e, transition, ok)
          (put-Mirrors m h (moved r next c now) (some r.state) reason (hash_of_Mirrors m h r v e) v)
    | inr no_move ↦ rw (e, transition, no_move) v
  ]
]

set_retry_after-Mirrors :
    (m : Machine) (h : String) (at : ℕ) → Mirrors m → Mirrors (set_retry_after m h at)
unfolding Mirrors set_retry_after
set_retry_after-Mirrors m h at v j = elim (Option-cases (get h m.ledger)) [
  | inl e ↦ rw (e, set_retry_after) (v j)
  | inr (r, e) ↦
      rw (e, set_retry_after)
        (ground (arith, get-set h j (record r { retry_after = some at }) m.ledger, v j, eq_iff h j))
]

prune-Mirrors : (m : Machine) (h : String) → Mirrors m → Mirrors (prune m h)
unfolding Mirrors prune
prune-Mirrors m h v j = ground (arith, get-delete h j m.ledger, v j)

claim_fresh-Mirrors :
    (m : Machine) (h c : String) (reason : Option String) (now : ℕ)
    → Mirrors m
    → Mirrors (claim_fresh m h c reason now).0
unfolding claim_fresh
claim_fresh-Mirrors m h c reason now v =
    let t = transition-Mirrors m h claimed (some c) reason now v in
    elim (Option-cases (get h m.ledger)) [
      | inl e ↦ rw (e, claim_fresh) v
      | inr (r, e) ↦ elim (Bool-cases (refused r)) [
        | inl no_claim ↦ rw (e, claim_fresh, no_claim) v
        | inr ok ↦ rw (e, claim_fresh, ok) t
      ]
    ]
  where
    refused : ClaimRecord → Bool
    refused r = not (same r.state unclaimed) && not (same r.state retry_queued)

step-Mirrors : (m : Machine) (c : ℕ × Call) → Mirrors m → Mirrors (step m c)
unfolding step try_claim mark_running mark_retry_queued release
step-Mirrors m (now, registers h reason) v = register-Mirrors m h reason now v
step-Mirrors m (now, try_claims h c reason) v =
    claim_fresh-Mirrors (register m h none now).0 h c reason now (register-Mirrors m h none now v)
step-Mirrors m (now, marks_running h c) v = transition-Mirrors m h running (some c) none now v
step-Mirrors m (now, marks_retry h after reason) v =
    let t = transition-Mirrors m h retry_queued none reason now v in
    elim (Bool-cases (transition m h retry_queued none reason now).1) [
      | inl ok ↦ rw ok (set_retry_after-Mirrors _ h (now + after) t)
      | inr no_move ↦ rw no_move t
    ]
step-Mirrors m (now, releases h reason) v = transition-Mirrors m h released none (some reason) now v
step-Mirrors m (now, prunes h) v = prune-Mirrors m h v

run-Mirrors : (cs : List (ℕ × Call)) (m : Machine) → Mirrors m → Mirrors (run m cs)
unfolding run
run-Mirrors [] m v = v
run-Mirrors (c ∷ cs) m v = run-Mirrors cs (step m c) (step-Mirrors m c v)

-- After any calls at all, the newest event about a task in the ledger tells its state, its attempts,
-- its last change and its cycle: a listener can rebuild these from the events alone.
pub run-latest :
    (cs : List (ℕ × Call)) (h : String) (r : ClaimRecord)
    → get h (run empty cs).ledger ≡ some r
    → (e : ClaimEvent) × (latest h (run empty cs).emitted ≡ some e) × (told e ≡ account r)
unfolding Mirrors get
run-latest cs h r e = ground (arith, run-Mirrors cs empty (λ j. tt) h)

-- An event is about a new task, or about a move along an edge of the diagram.
abbrev pub IsMove : Option ClaimState → ClaimState → Type 0
IsMove none s = s ≡ unclaimed
IsMove (some p) s = p ⟶ s

abbrev AllMoves : Machine → Type 0
AllMoves m = All (λ e. IsMove e.previous e.state) m.emitted

includes-⟶ : (s t : ClaimState) → includes (legal s) t ≡ true → s ⟶ t
unfolding includes legal same
includes-⟶ unclaimed claimed e = reserve
includes-⟶ claimed running e = start
includes-⟶ running retry_queued e = fail
includes-⟶ retry_queued claimed e = retry
includes-⟶ released released e = cc
includes-⟶ s released e = drop s refl
includes-⟶ s t e = cc

transition-AllMoves :
    (m : Machine) (h : String) (next : ClaimState) (c reason : Option String) (now : ℕ)
    → AllMoves m
    → AllMoves (transition m h next c reason now).0
unfolding transition put event_from moved
transition-AllMoves m h next c reason now a = elim (Option-cases (get h m.ledger)) [
  | inl e ↦ rw (e, transition) a
  | inr (r, e) ↦ elim (Bool-cases (includes (legal r.state) next)) [
    | inl ok ↦ rw (e, transition, ok) (includes-⟶ r.state next ok, a)
    | inr no_move ↦ rw (e, transition, no_move) a
  ]
]

register-AllMoves :
    (m : Machine) (h : String) (reason : Option String) (now : ℕ)
    → AllMoves m
    → AllMoves (register m h reason now).0
unfolding register put event_from new_record
register-AllMoves m h reason now a = ground arith

claim_fresh-AllMoves :
    (m : Machine) (h c : String) (reason : Option String) (now : ℕ)
    → AllMoves m
    → AllMoves (claim_fresh m h c reason now).0
unfolding claim_fresh
claim_fresh-AllMoves m h c reason now a =
    ground (arith, transition-AllMoves m h claimed (some c) reason now a)

retry-AllMoves :
    (m : Machine) (h : String) (after : ℕ) (reason : Option String) (now : ℕ)
    → AllMoves m
    → AllMoves (mark_retry_queued m h after reason now).0
unfolding mark_retry_queued set_retry_after
retry-AllMoves m h after reason now a =
    ground (arith, transition-AllMoves m h retry_queued none reason now a)

step-AllMoves : (m : Machine) (c : ℕ × Call) → AllMoves m → AllMoves (step m c)
unfolding step try_claim mark_running release prune
step-AllMoves m (now, registers h reason) a = register-AllMoves m h reason now a
step-AllMoves m (now, try_claims h c reason) a =
    claim_fresh-AllMoves (register m h none now).0 h c reason now (register-AllMoves m h none now a)
step-AllMoves m (now, marks_running h c) a = transition-AllMoves m h running (some c) none now a
step-AllMoves m (now, marks_retry h after reason) a = retry-AllMoves m h after reason now a
step-AllMoves m (now, releases h reason) a =
    transition-AllMoves m h released none (some reason) now a
step-AllMoves m (now, prunes h) a = a

run-AllMoves : (cs : List (ℕ × Call)) (m : Machine) → AllMoves m → AllMoves (run m cs)
unfolding run
run-AllMoves [] m a = a
run-AllMoves (c ∷ cs) m a = run-AllMoves cs (step m c) (step-AllMoves m c a)

-- Every event that a machine emits is about a new task or about a move along an edge of the
-- diagram.
pub emitted-IsMove :
    (cs : List (ℕ × Call)) → All (λ e. IsMove e.previous e.state) (run empty cs).emitted
emitted-IsMove cs = run-AllMoves cs empty tt
