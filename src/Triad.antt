-- ===== src/Triad.antt =====
-- src/protocols/TriadStateMachine.ts: the phases of one Architect, Operator, Verifier cycle.
--
-- The history is kept newest first. An illegal transition throws and leaves the machine as it was;
-- `step` is a caller that goes on after the exception.
pub mod Trail
use kovael.Common.{
  ℕ, String, Bool, true, false, ◌||◌, Option, none, some, List, [], ◌∷◌, reverse, if◌then◌else◌,
}

pub data Phase : Type 0 where
  preparing_context dispatch_to_architect architect_streaming dispatch_to_operator : Phase
  operator_executing dispatch_to_verifier verifier_auditing issuing_receipt : Phase
  succeeded failed stalled : Phase

unfoldable pub same : Phase → Phase → Bool
same preparing_context preparing_context = true
same dispatch_to_architect dispatch_to_architect = true
same architect_streaming architect_streaming = true
same dispatch_to_operator dispatch_to_operator = true
same operator_executing operator_executing = true
same dispatch_to_verifier dispatch_to_verifier = true
same verifier_auditing verifier_auditing = true
same issuing_receipt issuing_receipt = true
same succeeded succeeded = true
same failed failed = true
same stalled stalled = true
same _ _ = false

unfoldable pub includes : List Phase → Phase → Bool
unfolding same
includes [] p = false
includes (x ∷ xs) p = same x p || includes xs p

-- The set TERMINAL.
unfoldable pub terminal : List Phase
terminal = succeeded ∷ failed ∷ stalled ∷ []

-- The table NEXT.
unfoldable pub next_phases : Phase → List Phase
next_phases preparing_context = dispatch_to_architect ∷ failed ∷ stalled ∷ []
next_phases dispatch_to_architect = architect_streaming ∷ failed ∷ stalled ∷ []
next_phases architect_streaming = dispatch_to_operator ∷ failed ∷ stalled ∷ []
next_phases dispatch_to_operator = operator_executing ∷ failed ∷ stalled ∷ []
next_phases operator_executing = dispatch_to_verifier ∷ failed ∷ stalled ∷ []
next_phases dispatch_to_verifier = verifier_auditing ∷ failed ∷ stalled ∷ []
next_phases verifier_auditing = issuing_receipt ∷ failed ∷ stalled ∷ []
next_phases issuing_receipt = succeeded ∷ failed ∷ []
next_phases succeeded = []
next_phases failed = []
next_phases stalled = []

pub record PhaseEvent : Type 0 where
  pub cycle_id : String
  pub task_hash : String
  pub phase : Phase
  pub previous : Option Phase
  pub timestamp : ℕ
  pub routed_agent : Option String
  pub note : Option String

pub record Cycle : Type 0 where
  pub cycle_id : String
  pub task_hash : String
  pub phase : Phase
  pub history : List PhaseEvent
  pub emitted : List PhaseEvent

-- The constructor: the first phase is recorded, and not emitted.
unfoldable pub start : String → String → ℕ → Cycle
start cycle_id task_hash now = record {
  cycle_id = cycle_id;
  task_hash = task_hash;
  phase = preparing_context;
  history = first ∷ [];
  emitted = [];
}
  where
    first : PhaseEvent
    first = record {
      cycle_id = cycle_id;
      task_hash = task_hash;
      phase = preparing_context;
      previous = none;
      timestamp = now;
      routed_agent = none;
      note = none;
    }

unfoldable pub is_terminal : Cycle → Bool
unfolding includes terminal
is_terminal c = includes terminal c.phase

unfoldable pub can_transition : Cycle → Phase → Bool
unfolding includes next_phases
can_transition c next = includes (next_phases c.phase) next

pub record Request : Type 0 where
  pub next : Phase
  pub now : ℕ
  pub routed_agent : Option String
  pub note : Option String

unfoldable pub event_of : Cycle → Request → PhaseEvent
event_of c r = record {
  cycle_id = c.cycle_id;
  task_hash = c.task_hash;
  phase = r.next;
  previous = some c.phase;
  timestamp = r.now;
  routed_agent = r.routed_agent;
  note = r.note;
}

-- `none` is the exception.
unfoldable pub transition : Cycle → Request → Option (Cycle × PhaseEvent)
unfolding can_transition event_of
transition c r =
    if can_transition c r.next
    then some (
      record c {
        phase = r.next;
        history = event_of c r ∷ c.history;
        emitted = event_of c r ∷ c.emitted;
      },
      event_of c r,
    )
    else none

-- Oldest first.
unfoldable pub trail : Cycle → List PhaseEvent
trail c = reverse c.history

abbrev pub after : Cycle → Option (Cycle × PhaseEvent) → Cycle
after c none = c
after c (some (c', e)) = c'

unfoldable pub step : Cycle → Request → Cycle
unfolding transition
step c r = after c (transition c r)

unfoldable pub run : Cycle → List Request → Cycle
run c [] = c
run c (r ∷ rs) = run (step c r) rs
