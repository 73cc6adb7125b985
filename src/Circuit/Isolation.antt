-- ===== src/Circuit/Isolation.antt =====
-- src/services/CircuitBreaker.ts: the circuits do not touch one another.
use kovael.Common.{ℕ, ◌+◌, ◌≡◌, String, none, some, arith, str_eq, if◌then◌else◌, clip, leb, ◌&&◌}
use kovael.Table.Laws.{get-set}
use kovael.Circuit.{
  Config, Circuit, Breaker, closed, open_, half_open, EventType, circuit_half_open, circuit_failure,
  circuit_open, circuit_recovered, is_open, recovered, Call, asks, fails, succeeds, fresh, ensure,
  write, emit, agent, step,
}

-- What a call makes of its agent's own circuit, apart from the table.
abbrev pub asked : Config → Circuit → ℕ → Circuit
asked cfg c now =
    if is_open c.state && recovered cfg c.opened_at now then record c { state = half_open } else c

abbrev pub failed : Config → Circuit → String → ℕ → Circuit
failed cfg c reason now =
    if leb cfg.failure_threshold (c.failures + 1)
    then record c {
      state = open_;
      failures = c.failures + 1;
      opened_at = some now;
      last_reason = some (clip 240 reason);
    }
    else record c { failures = c.failures + 1; last_reason = some (clip 240 reason) }

abbrev pub next_circuit : Config → Circuit → ℕ → Call → Circuit
next_circuit cfg c now (asks a) = asked cfg c now
next_circuit cfg c now (fails a reason) = failed cfg c reason now
next_circuit cfg c now (succeeds a) = record c {
  state = closed;
  failures = 0;
  opened_at = none;
  last_reason = none;
}

ensure-write :
    (b : Breaker) (a j : String) (c : Circuit)
    → ensure (write b a c) j ≡ (if str_eq a j then c else ensure b j)
unfolding ensure write fresh
ensure-write b a j c = ground (arith, get-set a j c b.circuits)

ensure-emit :
    (b : Breaker) (a j : String) (c : Circuit) (type : EventType) (now : ℕ)
    → ensure (emit b a c type now) j ≡ (if str_eq a j then c else ensure b j)
unfolding ensure emit fresh
ensure-emit b a j c type now = ground (arith, get-set a j c b.circuits)

pub step-cfg : (b : Breaker) (c : ℕ × Call) → (step b c).cfg ≡ b.cfg
unfolding step write emit
step-cfg b (now, asks a) = ground arith
step-cfg b (now, fails a reason) = ground arith
step-cfg b (now, succeeds a) = ground arith

-- A call changes its own agent's circuit as `next_circuit` says, and no other.
pub step-ensure :
    (b : Breaker) (now : ℕ) (c : Call) (j : String)
    → ensure (step b (now, c)) j
      ≡ (if str_eq (agent c) j then next_circuit b.cfg (ensure b (agent c)) now c else ensure b j)
unfolding step
step-ensure b now (asks a) j =
    let c = ensure b a in
    ground (
      arith,
      ensure-write b a j c,
      ensure-emit b a j (record c { state = half_open }) circuit_half_open now,
    )
step-ensure b now (fails a reason) j =
    let c = ensure b a in
    let worse = record c { failures = c.failures + 1; last_reason = some (clip 240 reason) } in
    ground (
      arith,
      ensure-emit b a j worse circuit_failure now,
      ensure-emit b a j (record worse { state = open_; opened_at = some now }) circuit_open now,
    )
step-ensure b now (succeeds a) j =
    let c = ensure b a in
    let healed = record c { state = closed; failures = 0; opened_at = none; last_reason = none } in
    ground (arith, ensure-write b a j healed, ensure-emit b a j healed circuit_recovered now)
