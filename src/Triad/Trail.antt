-- ===== src/Triad/Trail.antt =====
-- src/protocols/TriadStateMachine.ts: which trails a cycle can leave behind.
use kovael.Common.{
  ℕ, suc, ◌≤◌, ◌≡◌, refl, ap, ◌∙◌, sym, String, true, false, List, [], ◌∷◌, ◌++◌, map, reverse,
  arith, inl, inr, Bool-cases, length, length-map, take, ◌<◌, subst, not, length-append,
  length-take-le,
}
use mathlib.Core.List.{reverse-cons, map-append}
use kovael.Triad.{
  Phase, preparing_context, dispatch_to_architect, architect_streaming, dispatch_to_operator,
  operator_executing, dispatch_to_verifier, verifier_auditing, issuing_receipt, succeeded, failed,
  stalled, PhaseEvent, Cycle, Request, same, includes, terminal, next_phases, start, is_terminal,
  can_transition, event_of, transition, trail, step, run,
}

-- The way to success, oldest first.
abbrev pub pipeline : List Phase
pipeline =
    preparing_context ∷ dispatch_to_architect ∷ architect_streaming ∷ dispatch_to_operator
    ∷ operator_executing ∷ dispatch_to_verifier ∷ verifier_auditing ∷ issuing_receipt ∷ succeeded
    ∷ []

-- A phase's place on that way.
abbrev pub place : Phase → ℕ
place preparing_context = 0
place dispatch_to_architect = 1
place architect_streaming = 2
place dispatch_to_operator = 3
place operator_executing = 4
place dispatch_to_verifier = 5
place verifier_auditing = 6
place issuing_receipt = 7
place succeeded = 8
place _ = 9

abbrev pub phases : List PhaseEvent → List Phase
phases = map (λ e. e.phase)

-- The trails that may end in a phase: a prefix of the way, and for `failed` and `stalled` such a
-- prefix with the phase after it; success cannot fail, and an issued receipt cannot stall.
abbrev pub TrailOf : Phase → List Phase → Type 0
TrailOf failed l = (n : ℕ) × (n < 8) × (l ≡ take (suc n) pipeline ++ failed ∷ [])
TrailOf stalled l = (n : ℕ) × (n < 7) × (l ≡ take (suc n) pipeline ++ stalled ∷ [])
TrailOf p l = l ≡ take (suc (place p)) pipeline

pub phases-snoc :
    (es : List PhaseEvent) (e : PhaseEvent)
    → phases (reverse (e ∷ es)) ≡ phases (reverse es) ++ e.phase ∷ []
phases-snoc es e = ap phases (reverse-cons e es) ∙ map-append _ (reverse es) (e ∷ [])

pub TrailOf-next :
    (p q : Phase) (l : List Phase)
    → includes (next_phases p) q ≡ true
    → TrailOf p l
    → TrailOf q (l ++ q ∷ [])
unfolding includes next_phases same take
TrailOf-next preparing_context dispatch_to_architect l e t = rw t refl
TrailOf-next dispatch_to_architect architect_streaming l e t = rw t refl
TrailOf-next architect_streaming dispatch_to_operator l e t = rw t refl
TrailOf-next dispatch_to_operator operator_executing l e t = rw t refl
TrailOf-next operator_executing dispatch_to_verifier l e t = rw t refl
TrailOf-next dispatch_to_verifier verifier_auditing l e t = rw t refl
TrailOf-next verifier_auditing issuing_receipt l e t = rw t refl
TrailOf-next issuing_receipt succeeded l e t = rw t refl
TrailOf-next preparing_context failed l e t = (0, omega arith, rw t refl)
TrailOf-next dispatch_to_architect failed l e t = (1, omega arith, rw t refl)
TrailOf-next architect_streaming failed l e t = (2, omega arith, rw t refl)
TrailOf-next dispatch_to_operator failed l e t = (3, omega arith, rw t refl)
TrailOf-next operator_executing failed l e t = (4, omega arith, rw t refl)
TrailOf-next dispatch_to_verifier failed l e t = (5, omega arith, rw t refl)
TrailOf-next verifier_auditing failed l e t = (6, omega arith, rw t refl)
TrailOf-next issuing_receipt failed l e t = (7, omega arith, rw t refl)
TrailOf-next preparing_context stalled l e t = (0, omega arith, rw t refl)
TrailOf-next dispatch_to_architect stalled l e t = (1, omega arith, rw t refl)
TrailOf-next architect_streaming stalled l e t = (2, omega arith, rw t refl)
TrailOf-next dispatch_to_operator stalled l e t = (3, omega arith, rw t refl)
TrailOf-next operator_executing stalled l e t = (4, omega arith, rw t refl)
TrailOf-next dispatch_to_verifier stalled l e t = (5, omega arith, rw t refl)
TrailOf-next verifier_auditing stalled l e t = (6, omega arith, rw t refl)
TrailOf-next p q l e t = cc

IsTrail : Cycle → Type 0
IsTrail c = TrailOf c.phase (phases (trail c))

step-IsTrail : (c : Cycle) (r : Request) → IsTrail c → IsTrail (step c r)
unfolding IsTrail step transition can_transition trail
step-IsTrail c r t = elim (Bool-cases (can_transition c r.next)) [
  | inl ok ↦
      rw (ok, step)
        (subst (TrailOf r.next) (sym (phases-snoc c.history (event_of c r)))
          (TrailOf-next c.phase r.next (phases (reverse c.history)) ok t))
  | inr refused ↦ rw (refused, step) t
]

run-IsTrail : (rs : List Request) (c : Cycle) → IsTrail c → IsTrail (run c rs)
unfolding run
run-IsTrail [] c t = t
run-IsTrail (r ∷ rs) c t = run-IsTrail rs (step c r) (step-IsTrail c r t)

-- After any requests, legal or not, the trail of a cycle is a prefix of the way to success, with at
-- most a last step to `failed` or `stalled`. A cycle that has succeeded has been through all nine
-- phases in order.
pub run-TrailOf :
    (cycle_id task_hash : String) (now : ℕ) (rs : List Request)
    → let c = run (start cycle_id task_hash now) rs in TrailOf c.phase (phases (trail c))
unfolding IsTrail start trail take
run-TrailOf cycle_id task_hash now rs = run-IsTrail rs (start cycle_id task_hash now) refl

TrailOf-length : (p : Phase) (l : List Phase) → TrailOf p l → length l ≤ 9
unfolding take
TrailOf-length failed l (n, h, e) = omega (
  arith,
  ap length e,
  length-append (take (suc n) pipeline) (failed ∷ []),
  length-take-le (suc n) pipeline,
)
TrailOf-length stalled l (n, h, e) = omega (
  arith,
  ap length e,
  length-append (take (suc n) pipeline) (stalled ∷ []),
  length-take-le (suc n) pipeline,
)
TrailOf-length preparing_context l e = rw e (omega arith)
TrailOf-length p l e = rw e (omega arith)

-- However many transitions are asked for, a trail has at most nine entries.
pub run-length-trail :
    (cycle_id task_hash : String) (now : ℕ) (rs : List Request)
    → length (trail (run (start cycle_id task_hash now) rs)) ≤ 9
run-length-trail cycle_id task_hash now rs =
    let c = run (start cycle_id task_hash now) rs in
    omega (
      arith,
      TrailOf-length c.phase (phases (trail c)) (run-TrailOf cycle_id task_hash now rs),
      length-map (λ (e : PhaseEvent). e.phase) (trail c),
    )

open_phase : (p : Phase) → includes (next_phases p) failed ≡ not (includes terminal p)
unfolding includes terminal next_phases same
open_phase preparing_context = refl
open_phase p = refl

closed_phase : (p q : Phase) → includes terminal p ≡ true → includes (next_phases p) q ≡ false
unfolding includes terminal next_phases same
closed_phase succeeded q e = refl
closed_phase failed q e = refl
closed_phase stalled q e = refl
closed_phase p q e = cc

-- A cycle can fail exactly as long as it is not terminal.
pub can_transition-failed : (c : Cycle) → can_transition c failed ≡ not (is_terminal c)
unfolding can_transition is_terminal
can_transition-failed c = open_phase c.phase

-- No request changes a terminal cycle.
pub run_terminal : (rs : List Request) (c : Cycle) → is_terminal c ≡ true → run c rs ≡ c
unfolding run step transition is_terminal can_transition
run_terminal [] c t = refl
run_terminal (r ∷ rs) c t = rw (closed_phase c.phase r.next t, step) (run_terminal rs c t)

run-history :
    (rs : List Request) (c : Cycle) (h : List PhaseEvent)
    → c.history ≡ c.emitted ++ h
    → (run c rs).history ≡ (run c rs).emitted ++ h
unfolding run step transition
run-history [] c h e = e
run-history (r ∷ rs) c h e = run-history rs (step c r) h (ground arith)

-- The events that were emitted are those of the trail but its first.
pub emitted-history :
    (cycle_id task_hash : String) (now : ℕ) (rs : List Request)
    → let s = start cycle_id task_hash now in (run s rs).history ≡ (run s rs).emitted ++ s.history
unfolding start
emitted-history cycle_id task_hash now rs =
    run-history rs (start cycle_id task_hash now) (start cycle_id task_hash now).history refl
