-- ===== src/Circuit.antt =====
-- src/services/CircuitBreaker.ts: one circuit for each agent, over a threshold of failures.
--
-- The clock's reading is an argument of each call, as in the source; `now - openedAt >= recoveryMs`
-- is written as a sum, which holds for a clock that runs backwards too.
pub mod Isolation
pub mod States
pub mod Opening
use kovael.Common.{
  ℕ, ◌+◌, String, Bool, true, false, not, ◌||◌, Option, none, some, List, [], ◌∷◌, leb, ltb,
  if◌then◌else◌, clip,
}
use kovael.Table.{Table, get, set}

pub data CircuitState : Type 0 where
  closed open_ half_open : CircuitState

pub record Config : Type 0 where
  pub failure_threshold : ℕ
  pub recovery_ms : ℕ

abbrev pub default_config : Config
default_config = record { failure_threshold = 3; recovery_ms = 30_000 }

pub record Circuit : Type 0 where
  pub agent_id : String
  pub state : CircuitState
  pub failures : ℕ
  pub opened_at : Option ℕ
  pub last_reason : Option String

pub data EventType : Type 0 where
  circuit_open circuit_recovered circuit_half_open circuit_failure : EventType

pub record CircuitEvent : Type 0 where
  pub circuit : Circuit
  pub type : EventType
  pub timestamp : ℕ

pub record Breaker : Type 0 where
  pub cfg : Config
  pub circuits : Table Circuit
  pub emitted : List CircuitEvent

abbrev pub create : Config → Breaker
create cfg = record { cfg = cfg; circuits = []; emitted = [] }

unfoldable pub fresh : String → Circuit
fresh a = record {
  agent_id = a;
  state = closed;
  failures = 0;
  opened_at = none;
  last_reason = none;
}

-- The circuit that `ensure` returns; every caller writes it back.
unfoldable pub ensure : Breaker → String → Circuit
unfolding fresh
ensure b a = elim (get a b.circuits) [ some c ↦ c | none ↦ fresh a ]

unfoldable pub write : Breaker → String → Circuit → Breaker
write b a c = record b { circuits = set a c b.circuits }

-- Writes the circuit and emits the event about it.
unfoldable pub emit : Breaker → String → Circuit → EventType → ℕ → Breaker
emit b a c type now = record b {
  circuits = set a c b.circuits;
  emitted = record { circuit = c; type = type; timestamp = now } ∷ b.emitted;
}

unfoldable pub is_open : CircuitState → Bool
is_open open_ = true
is_open _ = false

unfoldable pub is_closed : CircuitState → Bool
is_closed closed = true
is_closed _ = false

-- `circuit.openedAt !== undefined && now - circuit.openedAt >= recoveryMs`
unfoldable pub recovered : Config → Option ℕ → ℕ → Bool
recovered cfg none now = false
recovered cfg (some at) now = leb (at + cfg.recovery_ms) now

unfoldable pub can_dispatch : Breaker → String → ℕ → Breaker × Bool
unfolding is_open recovered
can_dispatch b a now =
    let c = ensure b a in
    if not (is_open c.state)
    then (write b a c, true)
    else if recovered b.cfg c.opened_at now
    then (emit b a (record c { state = half_open }) circuit_half_open now, true)
    else (write b a c, false)

unfoldable pub record_failure : Breaker → String → String → ℕ → Breaker
record_failure b a reason now =
    let c = ensure b a in
    let failed = record c { failures = c.failures + 1; last_reason = some (clip 240 reason) } in
    if leb b.cfg.failure_threshold failed.failures
    then emit b a (record failed { state = open_; opened_at = some now }) circuit_open now
    else emit b a failed circuit_failure now

unfoldable pub record_success : Breaker → String → ℕ → Breaker
unfolding is_closed
record_success b a now =
    let c = ensure b a in
    let healed = record c { state = closed; failures = 0; opened_at = none; last_reason = none } in
    if not (is_closed c.state) || ltb 0 c.failures
    then emit b a healed circuit_recovered now
    else write b a healed

pub data Call : Type 0 where
  asks : String → Call
  fails : String → String → Call
  succeeds : String → Call

abbrev pub agent : Call → String
agent (asks a) = a
agent (fails a _) = a
agent (succeeds a) = a

unfoldable pub step : Breaker → ℕ × Call → Breaker
unfolding can_dispatch record_failure record_success
step b (now, asks a) = (can_dispatch b a now).0
step b (now, fails a reason) = record_failure b a reason now
step b (now, succeeds a) = record_success b a now

unfoldable pub run : Breaker → List (ℕ × Call) → Breaker
run b [] = b
run b (c ∷ cs) = run (step b c) cs
