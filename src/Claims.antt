-- ===== src/Claims.antt =====
-- src/protocols/TaskClaimMachine.ts: the ledger of task claims.
--
-- The machine's state is its ledger and what it has emitted, newest first. A method takes the
-- machine and the clock's reading and returns the new machine beside its result: a method is
-- synchronous, so it reads the clock once.
pub mod Laws
pub mod Invariant
pub mod Diagram
pub mod Exclusion
pub mod Events
pub mod Keyed
use kovael.Common.{
  ℕ, suc, ◌+◌, String, Bool, true, false, not, ◌&&◌, ◌||◌, Option, none, some, List, [], ◌∷◌, leb,
  str_eq, or_default, if◌then◌else◌,
}
use kovael.Table.{Table, get, set, delete, values}

pub data ClaimState : Type 0 where
  unclaimed claimed running retry_queued released : ClaimState

-- `===` on states.
unfoldable pub same : ClaimState → ClaimState → Bool
same unclaimed unclaimed = true
same claimed claimed = true
same running running = true
same retry_queued retry_queued = true
same released released = true
same _ _ = false

-- The table LEGAL.
unfoldable pub legal : ClaimState → List ClaimState
legal unclaimed = claimed ∷ released ∷ []
legal claimed = running ∷ released ∷ []
legal running = retry_queued ∷ released ∷ []
legal retry_queued = claimed ∷ released ∷ []
legal released = []

unfoldable pub includes : List ClaimState → ClaimState → Bool
unfolding same
includes [] s = false
includes (x ∷ xs) s = same x s || includes xs s

pub record ClaimEvent : Type 0 where
  pub task_hash : String
  pub previous : Option ClaimState
  pub state : ClaimState
  pub timestamp : ℕ
  pub attempt : ℕ
  pub reason : Option String
  pub cycle_id : Option String

pub record ClaimRecord : Type 0 where
  pub task_hash : String
  pub state : ClaimState
  pub attempt : ℕ
  pub first_seen : ℕ
  pub updated_at : ℕ
  pub cycle_id : Option String
  pub retry_after : Option ℕ

pub record Machine : Type 0 where
  pub ledger : Table ClaimRecord
  pub emitted : List ClaimEvent

abbrev pub empty : Machine
empty = record { ledger = []; emitted = [] }

unfoldable pub event_from : ClaimRecord → Option ClaimState → Option String → ClaimEvent
event_from r previous reason = record {
  task_hash = r.task_hash;
  previous = previous;
  state = r.state;
  timestamp = r.updated_at;
  attempt = r.attempt;
  reason = reason;
  cycle_id = r.cycle_id;
}

unfoldable pub new_record : String → ℕ → ClaimRecord
new_record h now = record {
  task_hash = h;
  state = unclaimed;
  attempt = 0;
  first_seen = now;
  updated_at = now;
  cycle_id = none;
  retry_after = none;
}

-- Writes the record and emits the event about it.
unfoldable pub put : Machine → String → ClaimRecord → Option ClaimState → Option String → Machine
unfolding event_from
put m h r previous reason = record {
  ledger = set h r m.ledger;
  emitted = event_from r previous reason ∷ m.emitted;
}

unfoldable pub register : Machine → String → Option String → ℕ → Machine × ClaimRecord
unfolding put new_record
register m h reason now = elim (get h m.ledger) [
  | some r ↦ (m, r)
  | none ↦ (put m h (new_record h now) none reason, new_record h now)
]

-- `if (meta.cycleId)`: an empty text counts as absent.
unfoldable pub given : Option String → Option String → Option String
given none old = old
given (some s) old = if str_eq s "" then old else some s

-- The fields that an accepted transition writes.
unfoldable pub moved : ClaimRecord → ClaimState → Option String → ℕ → ClaimRecord
unfolding given same
moved r next cycle_id now = record r {
  state = next;
  updated_at = now;
  cycle_id = given cycle_id r.cycle_id;
  attempt = if same next claimed then r.attempt + 1 else r.attempt;
}

unfoldable pub transition :
    Machine → String → ClaimState → Option String → Option String → ℕ → Machine × Bool
unfolding put moved includes legal
transition m h next cycle_id reason now = elim (get h m.ledger) [
  | none ↦ (m, false)
  | some r ↦
      if includes (legal r.state) next
      then (put m h (moved r next cycle_id now) (some r.state) reason, true)
      else (m, false)
]

-- The gate of `tryClaim` and its call of `transition`, on the machine after `register`.
unfoldable pub claim_fresh : Machine → String → String → Option String → ℕ → Machine × Bool
unfolding same transition
claim_fresh m h cycle_id reason now = elim (get h m.ledger) [
  | none ↦ (m, false)
  | some fresh ↦
      if not (same fresh.state unclaimed) && not (same fresh.state retry_queued)
      then (m, false)
      else transition m h claimed (some cycle_id) reason now
]

unfoldable pub try_claim : Machine → String → String → Option String → ℕ → Machine × Bool
unfolding register claim_fresh
try_claim m h cycle_id reason now = claim_fresh (register m h none now).0 h cycle_id reason now

unfoldable pub mark_running : Machine → String → String → ℕ → Machine × Bool
unfolding transition
mark_running m h cycle_id now = transition m h running (some cycle_id) none now

unfoldable pub set_retry_after : Machine → String → ℕ → Machine
set_retry_after m h at = elim (get h m.ledger) [
  | none ↦ m
  | some r ↦ record m { ledger = set h (record r { retry_after = some at }) m.ledger }
]

unfoldable pub mark_retry_queued : Machine → String → ℕ → Option String → ℕ → Machine × Bool
unfolding transition set_retry_after
mark_retry_queued m h retry_after_ms reason now =
    let (m', accepted) = transition m h retry_queued none reason now in
    (if accepted then set_retry_after m' h (now + retry_after_ms) else m', accepted)

unfoldable pub release : Machine → String → String → ℕ → Machine × Bool
unfolding transition
release m h reason now = transition m h released none (some reason) now

-- `prune` emits nothing.
unfoldable pub prune : Machine → String → Machine
prune m h = record m { ledger = delete h m.ledger }

unfoldable pub is_due : ℕ → ClaimRecord → Bool
unfolding same
is_due now r = same r.state retry_queued && leb (or_default r.retry_after 0) now

unfoldable pub due_of : ℕ → List ClaimRecord → List ClaimRecord
unfolding is_due
due_of now [] = []
due_of now (r ∷ rs) = let rest = due_of now rs in if is_due now r then r ∷ rest else rest

unfoldable pub due_for_retry : Machine → ℕ → List ClaimRecord
unfolding due_of
due_for_retry m now = due_of now (values m.ledger)

unfoldable pub count_state : ClaimState → List ClaimRecord → ℕ
unfolding same
count_state s [] = 0
count_state s (r ∷ rs) = let rest = count_state s rs in if same r.state s then suc rest else rest

unfoldable pub stats : Machine → ClaimState → ℕ
unfolding count_state
stats m s = count_state s (values m.ledger)

-- One call of the machine by one of its clients.
pub data Call : Type 0 where
  registers : String → Option String → Call
  try_claims : String → String → Option String → Call
  marks_running : String → String → Call
  marks_retry : String → ℕ → Option String → Call
  releases : String → String → Call
  prunes : String → Call

unfoldable pub target : Call → String
target (registers h _) = h
target (try_claims h _ _) = h
target (marks_running h _) = h
target (marks_retry h _ _) = h
target (releases h _) = h
target (prunes h) = h

unfoldable pub step : Machine → ℕ × Call → Machine
unfolding register try_claim mark_running mark_retry_queued release prune
step m (now, registers h reason) = (register m h reason now).0
step m (now, try_claims h cycle_id reason) = (try_claim m h cycle_id reason now).0
step m (now, marks_running h cycle_id) = (mark_running m h cycle_id now).0
step m (now, marks_retry h after reason) = (mark_retry_queued m h after reason now).0
step m (now, releases h reason) = (release m h reason now).0
step m (now, prunes h) = prune m h

unfoldable pub run : Machine → List (ℕ × Call) → Machine
run m [] = m
run m (c ∷ cs) = run (step m c) cs
