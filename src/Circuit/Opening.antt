-- ===== src/Circuit/Opening.antt =====
-- src/services/CircuitBreaker.ts: when a circuit opens, and how long it stays so.
use kovael.Common.{
  ℕ, ◌+◌, ◌≤◌, ◌<◌, ◌≡◌, refl, ◌∙◌, sym, String, some, List, [], ◌∷◌, map, arith, str_eq,
  str_eq_self, eq_iff, ap, subst, true, false, length, leb, All,
}
use kovael.Circuit.Isolation.{step-ensure, step-cfg, failed}
use kovael.Circuit.States.{can_dispatch_iff}
use kovael.Circuit.{
  Config, Circuit, Breaker, Call, asks, fails, succeeds, fresh, ensure, is_open, recovered,
  can_dispatch, agent, step, run,
}

-- Failures of one agent, one after the other.
abbrev pub failures_of : String → List (ℕ × String) → List (ℕ × Call)
failures_of a = map (λ f. (f.0, fails a f.1))

-- A circuit that is open if and only if its failures have reached the threshold.
abbrev IsExact : Config → Circuit → Type 0
IsExact cfg c = is_open c.state ≡ leb cfg.failure_threshold c.failures

failed-IsExact :
    (cfg : Config) (c : Circuit) (reason : String) (now : ℕ)
    → IsExact cfg c
    → IsExact cfg (failed cfg c reason now)
unfolding is_open
failed-IsExact cfg c reason now e = ground arith

failed-failures :
    (cfg : Config) (c : Circuit) (reason : String) (now : ℕ)
    → (failed cfg c reason now).failures ≡ c.failures + 1
failed-failures cfg c reason now = ground arith

step_failure :
    (b : Breaker) (a reason : String) (now : ℕ)
    → ensure (step b (now, fails a reason)) a ≡ failed b.cfg (ensure b a) reason now
step_failure b a reason now = ground (arith, step-ensure b now (fails a reason) a, str_eq_self a)

run_failures :
    (fs : List (ℕ × String)) (b : Breaker) (a : String)
    → IsExact b.cfg (ensure b a)
    → let c = ensure (run b (failures_of a fs)) a in
      (c.failures ≡ (ensure b a).failures + length fs) × IsExact b.cfg c
unfolding run
run_failures [] b a e = (omega arith, e)
run_failures ((now, reason) ∷ fs) b a e =
    let b' = step b (now, fails a reason) in
    let s = step_failure b a reason now in
    let k = step-cfg b (now, fails a reason) in
    let e' : IsExact b'.cfg (ensure b' a) =
      subst (λ k. IsExact k (ensure b' a)) (sym k)
        (subst (IsExact b.cfg) (sym s) (failed-IsExact b.cfg (ensure b a) reason now e)) in
    let (more, exact) = run_failures fs b' a e' in
    (
      omega (
        arith,
        more,
        ap (λ (c : Circuit). c.failures) s,
        failed-failures b.cfg (ensure b a) reason now,
      ),
      subst (λ k. IsExact k (ensure (run b' (failures_of a fs)) a)) k exact,
    )

-- An agent that starts from a new circuit and fails n times in a row is counted n failures, and its
-- circuit is open exactly when n has reached the threshold.
failures-is_open :
    (b : Breaker) (a : String) (fs : List (ℕ × String))
    → 1 ≤ b.cfg.failure_threshold
    → ensure b a ≡ fresh a
    → let c = ensure (run b (failures_of a fs)) a in
      (c.failures ≡ length fs) × (is_open c.state ≡ leb b.cfg.failure_threshold (length fs))
unfolding fresh is_open
failures-is_open b a fs h e =
    let (count, exact) = run_failures fs b a (rw e (ground arith)) in
    let n : (ensure (run b (failures_of a fs)) a).failures ≡ length fs =
      omega (arith, count, ap (λ (c : Circuit). c.failures) e) in
    (n, exact ∙ ap (leb b.cfg.failure_threshold) n)

-- Calls that leave an agent's circuit alone until a deadline: those of other agents, and requests
-- of its own that come too early.
abbrev pub IsEarly : String → ℕ → ℕ × Call → Type 0
IsEarly a deadline (now, asks j) = now < deadline
IsEarly a deadline (now, c) = str_eq (agent c) a ≡ false

step-IsEarly :
    (b : Breaker) (c : ℕ × Call) (a : String) (at : ℕ)
    → is_open (ensure b a).state ≡ true
    → (ensure b a).opened_at ≡ some at
    → IsEarly a (at + b.cfg.recovery_ms) c
    → ensure (step b c) a ≡ ensure b a
unfolding is_open recovered
step-IsEarly b (now, asks j) a at o t e = ground (arith, step-ensure b now (asks j) a, eq_iff j a)
step-IsEarly b (now, fails j r) a at o t e = ground (arith, step-ensure b now (fails j r) a)
step-IsEarly b (now, succeeds j) a at o t e = ground (arith, step-ensure b now (succeeds j) a)

run-IsEarly :
    (cs : List (ℕ × Call)) (b : Breaker) (a : String) (at : ℕ)
    → is_open (ensure b a).state ≡ true
    → (ensure b a).opened_at ≡ some at
    → All (IsEarly a (at + b.cfg.recovery_ms)) cs
    → (ensure (run b cs) a ≡ ensure b a) × ((run b cs).cfg ≡ b.cfg)
unfolding run
run-IsEarly [] b a at o t e = (refl, refl)
run-IsEarly (c ∷ cs) b a at o t (e, es) =
    let s = step-IsEarly b c a at o t e in
    let k = step-cfg b c in
    let (same, cfg) =
      run-IsEarly cs (step b c) a at (rw s o) (rw s t)
        (subst (λ k. All (IsEarly a (at + k.recovery_ms)) cs) (sym k) es) in
    (same ∙ s, cfg ∙ k)

-- A circuit that opened at `at` refuses its agent at every time before `at + recoveryMs`, whatever
-- other agents do and however often the agent asks before then.
pub run-blocked :
    (b : Breaker) (cs : List (ℕ × Call)) (a : String) (at now : ℕ)
    → is_open (ensure b a).state ≡ true
    → (ensure b a).opened_at ≡ some at
    → All (IsEarly a (at + b.cfg.recovery_ms)) cs
    → now < at + b.cfg.recovery_ms
    → (can_dispatch (run b cs) a now).1 ≡ false
run-blocked b cs a at now o t es early =
    let (same, cfg) = run-IsEarly cs b a at o t es in
    (can_dispatch_iff (run b cs) a now).1 (rw same o, rw (same, cfg, t) early)
