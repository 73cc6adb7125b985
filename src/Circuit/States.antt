-- ===== src/Circuit/States.antt =====
-- src/services/CircuitBreaker.ts: what the three states of a circuit mean.
use kovael.Common.{
  ℕ, ◌+◌, ◌≤◌, ◌<◌, ◌≡◌, refl, String, Option, none, some, List, [], ◌∷◌, arith, str_eq, true,
  false, Bool-cases, inl, inr, is_some, ◌∙◌, sym, subst, ◌↔◌, units, units-clip-le,
}
use kovael.Table.{get}
use kovael.Circuit.Isolation.{step-ensure, step-cfg, next_circuit}
use kovael.Circuit.{
  Config, CircuitState, closed, Circuit, Breaker, Call, asks, fails, succeeds, fresh, ensure,
  is_open, recovered, can_dispatch, create, agent, step, run,
}

-- A reason is stored cut to 240 units.
abbrev Short : Option String → Type 0
Short none = Unit
Short (some s) = units s ≤ 240

abbrev Means : Config → CircuitState → Circuit → Type 0
Means cfg closed c = (c.failures < cfg.failure_threshold) × (c.opened_at ≡ none)
Means cfg _ c = (cfg.failure_threshold ≤ c.failures) × (is_some c.opened_at ≡ true)

-- A closed circuit is below the threshold and has no opening time; any other has reached the
-- threshold and knows when it opened.
pub record IsSound (cfg : Config) (c : Circuit) : Type 0 where
  pub meaning : Means cfg c.state c
  pub short : Short c.last_reason

fresh-IsSound : (cfg : Config) (a : String) → 1 ≤ cfg.failure_threshold → IsSound cfg (fresh a)
unfolding fresh
fresh-IsSound cfg a h = ground arith

next_circuit-IsSound :
    (cfg : Config) (c : Circuit) (now : ℕ) (call : Call)
    → 1 ≤ cfg.failure_threshold
    → IsSound cfg c
    → IsSound cfg (next_circuit cfg c now call)
unfolding is_open recovered
next_circuit-IsSound cfg c now (asks a) h v = ground arith
next_circuit-IsSound cfg c now (fails a reason) h v = ground (arith, units-clip-le 240 reason)
next_circuit-IsSound cfg c now (succeeds a) h v = ground arith

AllSound : Config → Breaker → Type 0
AllSound cfg b = (b.cfg ≡ cfg) × ((a : String) → IsSound cfg (ensure b a))

step-AllSound :
    (cfg : Config) (b : Breaker) (c : ℕ × Call)
    → 1 ≤ cfg.failure_threshold
    → AllSound cfg b
    → AllSound cfg (step b c)
unfolding AllSound
step-AllSound cfg b (now, c) h (e, v) = (step-cfg b (now, c) ∙ e, sound)
  where
    sound : (a : String) → IsSound cfg (ensure (step b (now, c)) a)
    sound a = elim (Bool-cases (str_eq (agent c) a)) [
      | inl own ↦
          rw (step-ensure b now c a, own)
            (subst (λ k. IsSound cfg (next_circuit k (ensure b (agent c)) now c)) (sym e)
              (next_circuit-IsSound cfg (ensure b (agent c)) now c h (v (agent c))))
      | inr other ↦ rw (step-ensure b now c a, other) (v a)
    ]

run-AllSound :
    (cs : List (ℕ × Call)) (cfg : Config) (b : Breaker)
    → 1 ≤ cfg.failure_threshold
    → AllSound cfg b
    → AllSound cfg (run b cs)
unfolding run
run-AllSound [] cfg b h v = v
run-AllSound (c ∷ cs) cfg b h v = run-AllSound cs cfg (step b c) h (step-AllSound cfg b c h v)

create-AllSound : (cfg : Config) → 1 ≤ cfg.failure_threshold → AllSound cfg (create cfg)
unfolding AllSound ensure get
create-AllSound cfg h = (refl, λ a. fresh-IsSound cfg a h)

-- With a threshold of at least one, after any calls, every agent's circuit is sound: closed exactly
-- while its failures are below the threshold, else open or half open with an opening time.
pub run-IsSound :
    (cfg : Config) (cs : List (ℕ × Call)) (a : String)
    → 1 ≤ cfg.failure_threshold
    → IsSound cfg (ensure (run (create cfg) cs) a)
unfolding AllSound
run-IsSound cfg cs a h = (run-AllSound cs cfg (create cfg) h (create-AllSound cfg h)).1 a

-- The recovery time since the opening is not over, or there was no opening to count from.
abbrev pub Waiting : Config → Option ℕ → ℕ → Type 0
Waiting cfg none now = Unit
Waiting cfg (some at) now = now < at + cfg.recovery_ms

-- `canDispatch` refuses an agent exactly when its circuit is open and still waiting to recover.
pub can_dispatch_iff :
    (b : Breaker) (a : String) (now : ℕ)
    → ((can_dispatch b a now).1 ≡ false)
      ↔ ((is_open (ensure b a).state ≡ true) × Waiting b.cfg (ensure b a).opened_at now)
unfolding can_dispatch is_open recovered
can_dispatch_iff b a now = (λ h. ground arith, λ h. ground arith)
