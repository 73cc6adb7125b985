-- ===== src/Retries/Backlog.antt =====
-- src/services/RetryQueue.ts: which goals still wait after a sweep.
use kovael.Common.{
  ℕ, ◌≡◌, refl, sym, ◌∙◌, ap, String, Bool, true, false, not, ◌&&◌, ◌||◌, Option, none, some, List,
  [], ◌∷◌, arith, str_eq, eq_iff, ltb, leb, or_default, if◌then◌else◌, Option-cases, Bool-cases,
  inl, inr,
}
use kovael.Table.{Table, get, delete, keys, values, has}
use kovael.Table.Laws.{Unique, get-delete}
use kovael.Table.Entries.{AllEntries}
use kovael.Claims.{
  ClaimState, unclaimed, claimed, running, retry_queued, released, same, is_due, ClaimRecord,
  Machine, due_of, due_for_retry,
}
use kovael.Claims.Keyed.{IsOwn, IsKeyed}
use kovael.Retries.{
  Queue, Pending, Dispatcher, is_queued, forget, dispatch_one, dispatch_all, sweep,
}
use kovael.Retries.Failures.{due?}

abbrev contains : String → List String → Bool
contains h [] = false
contains h (k ∷ ks) = str_eq k h || contains h ks

contains-keys : (h : String) (t : Table Pending) → contains h (keys t) ≡ has h t
unfolding get
contains-keys h [] = refl
contains-keys h ((k, p) ∷ t) = ground (arith, contains-keys h t)

get-forget :
    (m : Machine) (ks : List String) (t : Table Pending) (h : String)
    → get h (forget m ks t)
      ≡ (if contains h ks && not (is_queued (get h m.ledger)) then none else get h t)
unfolding forget
get-forget m [] t h = refl
get-forget m (k ∷ ks) t h =
    let t' = if is_queued (get k m.ledger) then t else delete k t in
    ground (arith, eq_iff k h, get-delete k h t, get-forget m ks t' h)

-- A due claim of the task is on the list.
abbrev names : String → List ClaimRecord → Bool
names h [] = false
names h (r ∷ rs) = str_eq r.task_hash h || names h rs

pending-dispatch_one :
    (f : Dispatcher) (q : Queue) (now : ℕ) (r : ClaimRecord) (h : String)
    → get h (dispatch_one f q now r).pending
      ≡ (if str_eq r.task_hash h then none else get h q.pending)
unfolding dispatch_one
pending-dispatch_one f q now r h = elim (Option-cases (get r.task_hash q.pending)) [
  | inl e ↦ rw (e, dispatch_one) (ground (arith, eq_iff r.task_hash h))
  | inr (p, e) ↦ rw (e, dispatch_one) (get-delete r.task_hash h q.pending)
]

pending-dispatch_all :
    (f : Dispatcher) (rs : List ClaimRecord) (q : Queue) (now : ℕ) (h : String)
    → get h (dispatch_all f q now rs).pending ≡ (if names h rs then none else get h q.pending)
unfolding dispatch_all
pending-dispatch_all f [] q now h = refl
pending-dispatch_all f (r ∷ rs) q now h = ground (
  arith,
  pending-dispatch_one f q now r h,
  pending-dispatch_all f rs (dispatch_one f q now r) now h,
)

names-due_of :
    (h : String) (now : ℕ) (t : Table ClaimRecord)
    → Unique t
    → AllEntries IsOwn t
    → names h (due_of now (values t)) ≡ due? now (get h t)
unfolding due_of get
names-due_of h now [] u o = refl
names-due_of h now ((k, r) ∷ t) u o =
    let ih = names-due_of h now t u.1 o.1 in
    elim (Bool-cases (str_eq k h)) [
      | inl e ↦
          let missing : get h t ≡ none = ap (λ x. get x t) (sym ((eq_iff k h).0 e)) ∙ u.0 in
          let own : str_eq r.task_hash h ≡ true = rw o.0 e in ground (arith, ih, missing, own)
      | inr e ↦ let own : str_eq r.task_hash h ≡ false = rw o.0 e in ground (arith, ih, own)
    ]

-- A claim in this state, with this time of its retry, waits on.
abbrev pub is_early : ℕ → ClaimState → Option ℕ → Bool
is_early now retry_queued (some t) = ltb now t
is_early now retry_queued none = false
is_early now _ _ = false

-- What waits for a task after a sweep: its goal, if its claim is queued for a retry that is not due.
abbrev pub waits : ℕ → Option ClaimRecord → Option Pending → Option Pending
waits now none p = none
waits now (some r) p = if is_early now r.state r.retry_after then p else none

is_early-not_due :
    (now : ℕ) (s : ClaimState) (o : Option ℕ)
    → (same s retry_queued && not (same s retry_queued && leb (or_default o 0) now))
      ≡ is_early now s o
unfolding same
is_early-not_due now unclaimed o = refl
is_early-not_due now claimed o = refl
is_early-not_due now running o = refl
is_early-not_due now released o = refl
is_early-not_due now retry_queued none = ground arith
is_early-not_due now retry_queued (some t) = ground arith

waits-not_due :
    (now : ℕ) (o : Option ClaimRecord) (p : Option Pending)
    → (if is_queued o && not (due? now o) then p else none) ≡ waits now o p
unfolding is_queued is_due
waits-not_due now none p = refl
waits-not_due now (some r) p = rw (is_early-not_due now r.state r.retry_after) refl

-- With a dispatcher bound, a sweep of a keyed ledger keeps the goal of exactly the tasks whose
-- claims wait for a retry that is not due yet, whatever the dispatcher does to the ledger: a goal
-- that is due is handed on, and is not there for a second sweep.
pub sweep-waits :
    (f : Dispatcher) (q : Queue) (now : ℕ) (h : String)
    → q.dispatcher ≡ some f
    → IsKeyed q.claims
    → get h (sweep q now).pending ≡ waits now (get h q.claims.ledger) (get h q.pending)
unfolding sweep due_for_retry
sweep-waits f q now h e v =
    let kept = forget q.claims (keys q.pending) q.pending in
    rw (e, sweep)
      (ground (
        arith,
        pending-dispatch_all f (due_of now (values q.claims.ledger)) (record q { pending = kept })
            now h,
        names-due_of h now q.claims.ledger v.unique v.own,
        get-forget q.claims (keys q.pending) q.pending h,
        contains-keys h q.pending,
      )
        ∙ waits-not_due now (get h q.claims.ledger) (get h q.pending))
